-- ===== src/CallbackData/Tests.antt =====
-- Texts of callbacks and what is read from them, and instances of the theorems about them.
use mitup_telegram_bot.Base.{
  ℕ, ◌+◌, ◌-◌, ◌*◌, ◌≡◌, refl, Option, none, some, List, [], ◌∷◌, inl, Text, codes, bind, arith,
  true, and_left, and_right, leb, leb→le, ◌≤◌, ◌/◌, ◌%◌, ◌&&◌,
}
use mitup_telegram_bot.CallbackData.{
  Date, CallbackData, plain, date_extra, page_extra, meeting_editor, joined, str, base_str, suffix,
  date_suffix, date_text, origin_text, optional_number,
}
use mitup_telegram_bot.CallbackData.Parse.{
  match_pattern, parse, actions, entities, tail_pattern, extra_pattern, origin_pattern,
  model_validate, validate_extra, validate_id, paginated_pattern, source_pattern,
}
use mitup_telegram_bot.CallbackData.Regex.{star, alternation, regex_alternation, form_pattern}
use mitup_telegram_bot.CallbackData.RoundTrip.Fields.{is_date, days_in_month}
use mitup_telegram_bot.CallbackData.Buttons.{Copy, built, parse-built, origin_set, page_set}
use mitup_telegram_bot.CallbackData.Routing.{match_pattern-str}

-- A reader of dates that agrees with the calendar.
read_date : Text → Option Date
read_date (a ∷ b ∷ c ∷ d ∷ _ ∷ e ∷ f ∷ _ ∷ g ∷ h ∷ []) = some (record {
  year = (a - 48) * 1000 + (b - 48) * 100 + (c - 48) * 10 + (d - 48);
  month = (e - 48) * 10 + (f - 48);
  day = (g - 48) * 10 + (h - 48);
})
read_date _ = none

fewer_than_hundred : (year month : ℕ) → days_in_month year month ≤ 31
fewer_than_hundred year month = ground arith

two_read : (n : ℕ) → n ≤ 99 → (48 + n / 10 % 10 - 48) * 10 + (48 + n % 10 - 48) ≡ n
two_read n h = omega arith

four_read :
    (n : ℕ)
    → n ≤ 9999
    → (48 + n / 1000 % 10 - 48) * 1000
        + (48 + n / 100 % 10 - 48) * 100
        + (48 + n / 10 % 10 - 48) * 10
        + (48 + n % 10 - 48)
      ≡ n
four_read n h = omega arith

read_date-date_text : (date : Date) → is_date date ≡ true → read_date (date_text date) ≡ some date
unfolding read_date
read_date-date_text date h =
    let year_in = leb 1000 date.year && leb date.year 9999 in
    let month_in = leb 1 date.month && leb date.month 12 in
    let day_in = leb 1 date.day && leb date.day (days_in_month date.year date.month) in
    let rest = and_right year_in (month_in && day_in) h in
    let year_le = leb→le date.year 9999 (
      and_right (leb 1000 date.year) (leb date.year 9999)
        (and_left year_in (month_in && day_in) h)) in
    let month_le =
      leb→le date.month 12
        (and_right (leb 1 date.month) (leb date.month 12) (and_left month_in day_in rest)) in
    let day_le = leb→le date.day (days_in_month date.year date.month) (
      and_right (leb 1 date.day) (leb date.day (days_in_month date.year date.month))
        (and_right month_in day_in rest)) in
    rw
      (
        four_read date.year (omega arith),
        two_read date.month (omega arith),
        two_read date.day (omega (arith, fewer_than_hundred date.year date.month)),
      )
      refl

-- `SHOW_MEETING`, as a declaration with a retired form.
abbrev show_meeting : CallbackData
show_meeting = record {
  entity = codes "meeting";
  action = codes "show";
  id = none;
  aliases = (codes "open", codes "meetup") ∷ [];
  back = none;
  back_id = none;
  extra = page_extra none none;
}

-- A retired button on the third page of the joined meetings, pressed in the editor.
abbrev retired : CallbackData
retired = record {
  entity = codes "meetup";
  action = codes "open";
  id = some 42;
  aliases = [];
  back = some meeting_editor;
  back_id = some 7;
  extra = page_extra (some 3) (some joined);
}

abbrev set_date : CallbackData
set_date = record {
  entity = codes "meeting";
  action = codes "set_date";
  id = none;
  aliases = [];
  back = none;
  back_id = none;
  extra = date_extra (some (record { year = 2023; month = 10; day = 15 }));
}

set_date_test : str set_date ≡ some (codes "set_date;meeting:;date:2023-10-15")
unfolding str base_str suffix date_suffix origin_text optional_number
set_date_test = refl

-- A page of zero matches the pattern and is refused by the field's bound.
page_zero_test :
    bind
      (match_pattern show_meeting (codes "show;meeting:42;page:0"))
      (λ g. parse read_date show_meeting (some g))
    ≡ none
unfolding match_pattern actions entities tail_pattern extra_pattern origin_pattern paginated_pattern
    source_pattern parse model_validate validate_extra validate_id star alternation form_pattern
    regex_alternation
page_zero_test = refl

match_pattern-str_example : bind (str set_date) (match_pattern show_meeting) ≡ none
match_pattern-str_example =
    match_pattern-str show_meeting set_date (ground arith) (ground arith) (ground arith)
      (inl ((λ e. cc), ((λ e. cc), tt)))

-- A button of the second page of a list, with its origin.
abbrev copies : List Copy
copies =
    origin_set (some (record { target = meeting_editor; id = some 7 })) ∷ page_set 42 2 none ∷ []

abbrev second_page : CallbackData
second_page = record {
  entity = codes "meeting";
  action = codes "show";
  id = some 42;
  aliases = [];
  back = some meeting_editor;
  back_id = some 7;
  extra = page_extra (some 2) none;
}

parse-built_example :
    bind
      (str (built show_meeting copies))
      (λ wire. parse read_date show_meeting (match_pattern show_meeting wire))
    ≡ some second_page
parse-built_example =
    parse-built read_date read_date-date_text show_meeting copies (ground arith) tt refl

-- `STALE_CANCEL`, whose entity is a regular expression.
abbrev stale_cancel : CallbackData
stale_cancel = record show_meeting {
  action = codes "cancel";
  entity = codes "[^:]+";
  aliases = [];
  extra = plain;
}

stale_cancel_test :
    bind (match_pattern stale_cancel (codes "cancel;title:5")) (λ g. some g.entity)
    ≡ some (codes "title")
unfolding match_pattern actions entities tail_pattern extra_pattern origin_pattern star alternation
    regex_alternation form_pattern
stale_cancel_test = refl
