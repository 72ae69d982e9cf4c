-- ===== src/Meeting/Tests.antt =====
-- Runs of the waiting list on concrete meetings, and instances of the theorems about it.
use mitup_telegram_bot.Meeting.Schedule.{enforce_datetime_ordering}
use mitup_telegram_bot.Base.{
  Unique, ◌≡◌, refl, ◌⊎◌, true, false, none, some, [], ◌∷◌, map, take, drop, arith,
}
use mitup_telegram_bot.Supporter.{LimitsConfig, host_1, effective_participant_capacity}
use mitup_telegram_bot.Meeting.{
  Meetup, new_link, confirmed, n_participants, n_waiting, effective_max_members, full,
  waiting_links, places_to_fill, promote_each, promote_from_waiting_list,
}
use mitup_telegram_bot.Meeting.Links.{ids, IsSorted}
use mitup_telegram_bot.Meeting.Promotion.{promote_dequeues, promote_fills, WithinCap}

abbrev pub shipped_limits : LimitsConfig
shipped_limits = record {
  free_active_meetings = 5;
  patron_active_meetings = 50;
  free_scheduling_horizon_days = 90;
  patron_scheduling_horizon_days = 365;
  free_participant_capacity = 20;
}

-- A meeting of one owner with room for two, where one is confirmed and three wait. The first of
-- the two that arrived at 20 has the higher id.
abbrev pub picnic : Meetup
picnic = record {
  id = 7;
  owner_id = 1;
  owner_level = host_1;
  waiting_list = true;
  public = false;
  lock_on_start = false;
  datetime = none;
  end_datetime = none;
  active = true;
  activated_time = 0;
  expiration_time = none;
  warned_time = none;
  expiration_notification_sent = false;
  started_notification_sent = false;
  max_members = some 2;
  messages = [];
  joined_links =
      new_link 11 true none (some 9) 20
      ∷ new_link 12 false none (some 2) 10
      ∷ new_link 13 true none (some 5) 20
      ∷ new_link 14 true none (some 6) 30
      ∷ [];
}

picnic_queue : ids (waiting_links picnic) ≡ 13 ∷ 11 ∷ 14 ∷ []
unfolding waiting_links
picnic_queue = refl

picnic_promotes : promote_from_waiting_list shipped_limits picnic ≡ (
  record picnic {
    joined_links =
        new_link 11 true none (some 9) 20
        ∷ new_link 12 false none (some 2) 10
        ∷ new_link 13 false none (some 5) 20
        ∷ new_link 14 true none (some 6) 30
        ∷ [];
  },
  new_link 13 false none (some 5) 20 ∷ [],
)
unfolding promote_from_waiting_list waiting_links promote_each places_to_fill n_waiting
    n_participants effective_max_members effective_participant_capacity
picnic_promotes = refl

picnic-Unique : Unique (ids picnic.joined_links)
picnic-Unique = omega arith

promote_dequeues_example :
    let (m', promoted) = promote_from_waiting_list shipped_limits picnic in
    (waiting_links m' ≡ drop (places_to_fill shipped_limits picnic) (waiting_links picnic))
    × (promoted
        ≡ map confirmed (take (places_to_fill shipped_limits picnic) (waiting_links picnic)))
    × IsSorted (waiting_links picnic)
    × (ids m'.joined_links ≡ ids picnic.joined_links)
    × (m' ≡ record picnic { joined_links = m'.joined_links })
promote_dequeues_example = promote_dequeues shipped_limits picnic picnic-Unique

promote_fills_example :
    let m' = (promote_from_waiting_list shipped_limits picnic).0 in
    ((n_waiting m' ≡ 0) ⊎ (full shipped_limits m' ≡ true))
    × WithinCap
        (effective_max_members shipped_limits picnic)
        (n_participants picnic)
        (n_participants m')
promote_fills_example = promote_fills shipped_limits picnic picnic-Unique

-- The picnic with dates in the wrong order, locked while it runs.
abbrev pub dated : Meetup
dated = record picnic {
  datetime = some 500;
  end_datetime = some 400;
  lock_on_start = true;
  expiration_time = some 100;
}

ordered_test :
    enforce_datetime_ordering dated
    ≡ (record dated { end_datetime = none; lock_on_start = false }, true)
unfolding enforce_datetime_ordering
ordered_test = refl
