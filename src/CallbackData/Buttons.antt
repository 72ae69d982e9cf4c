-- ===== src/CallbackData/Buttons.antt =====
-- The callbacks of the buttons, which copies build from a declaration: libs/core/mitup_bot/
-- callback_data.py.
use mitup_telegram_bot.Base.{
  ℕ, ◌≡◌, refl, true, inl, sym, ap, ◌∙◌, subst, Option, none, some, List, [], ◌∷◌, Text, bind,
}
use mitup_telegram_bot.CallbackData.{
  Date, Extra, date_extra, code_extra, page_extra, grant_extra, meeting_extra, CallbackData,
  BackOrigin, BackTarget, MeetingListSource, date_text, str, derive, with_id, with_origin,
  with_page, with_date, with_code, with_level, with_ids,
}
use mitup_telegram_bot.CallbackData.Parse.{match_pattern, parse}
use mitup_telegram_bot.CallbackData.RoundTrip.{parse-str}
use mitup_telegram_bot.CallbackData.RoundTrip.Fields.{
  is_date, Declaration, ExtraSendable, OriginSendable,
}

-- A copy that a handler makes of a callback.
pub data Copy : Type 0 where
  id_set : ℕ → Copy
  origin_set : Option BackOrigin → Copy
  page_set : ℕ → ℕ → Option MeetingListSource → Copy
  date_set : Date → Copy
  code_set : Text → Copy
  level_set ids_set : ℕ → ℕ → Copy

abbrev pub copied : CallbackData → Copy → CallbackData
copied c (id_set id) = with_id c id
copied c (origin_set o) = with_origin c o
copied c (page_set id page source) = with_page c id page source
copied c (date_set date) = with_date c date
copied c (code_set code) = with_code c code
copied c (level_set id level) = with_level c id level
copied c (ids_set meeting_id id) = with_ids c meeting_id id

-- The copies, the first one of the declaration.
abbrev pub built : CallbackData → List Copy → CallbackData
built c [] = c
built c (copy ∷ copies) = built (copied c copy) copies

-- The record that the button is about: the last one that a copy names.
abbrev pub last_id : Option ℕ → List Copy → Option ℕ
last_id id [] = id
last_id id (id_set n ∷ copies) = last_id (some n) copies
last_id id (origin_set o ∷ copies) = last_id id copies
last_id id (page_set n page source ∷ copies) = last_id (some n) copies
last_id id (date_set date ∷ copies) = last_id id copies
last_id id (code_set code ∷ copies) = last_id id copies
last_id id (level_set n level ∷ copies) = last_id (some n) copies
last_id id (ids_set meeting_id n ∷ copies) = last_id (some n) copies

-- The screen to return to, with its record: the last one that is given.
abbrev pub last_origin : Option BackTarget × Option ℕ → List Copy → Option BackTarget × Option ℕ
last_origin o [] = o
last_origin o (id_set n ∷ copies) = last_origin o copies
last_origin o (origin_set none ∷ copies) = last_origin o copies
last_origin o (origin_set (some p) ∷ copies) = last_origin (some p.target, p.id) copies
last_origin o (page_set n page source ∷ copies) = last_origin o copies
last_origin o (date_set date ∷ copies) = last_origin o copies
last_origin o (code_set code ∷ copies) = last_origin o copies
last_origin o (level_set n level ∷ copies) = last_origin o copies
last_origin o (ids_set meeting_id n ∷ copies) = last_origin o copies

-- What the class adds: the last copy that sets it.
abbrev pub last_extra : Extra → List Copy → Extra
last_extra x [] = x
last_extra x (id_set n ∷ copies) = last_extra x copies
last_extra x (origin_set o ∷ copies) = last_extra x copies
last_extra x (page_set n page source ∷ copies) = last_extra (page_extra (some page) source) copies
last_extra x (date_set date ∷ copies) = last_extra (date_extra (some date)) copies
last_extra x (code_set code ∷ copies) = last_extra (code_extra (some code)) copies
last_extra x (level_set n level ∷ copies) = last_extra (grant_extra (some level)) copies
last_extra x (ids_set meeting_id n ∷ copies) = last_extra (meeting_extra (some meeting_id)) copies

-- What a press of the button says.
abbrev pub pressed : CallbackData → List Copy → CallbackData
pressed d copies = record {
  entity = d.entity;
  action = d.action;
  id = last_id d.id copies;
  aliases = [];
  back = (last_origin (d.back, d.back_id) copies).0;
  back_id = (last_origin (d.back, d.back_id) copies).1;
  extra = last_extra d.extra copies;
}

derive-built : (d : CallbackData) (copies : List Copy) → derive (built d copies) ≡ pressed d copies
unfolding derive with_id with_origin with_page with_date with_code with_level with_ids
derive-built d [] = refl
derive-built d (id_set id ∷ copies) = derive-built (with_id d id) copies
derive-built d (origin_set none ∷ copies) = derive-built (with_origin d none) copies
derive-built d (origin_set (some o) ∷ copies) = derive-built (with_origin d (some o)) copies
derive-built d (page_set id page source ∷ copies) = derive-built (with_page d id page source) copies
derive-built d (date_set date ∷ copies) = derive-built (with_date d date) copies
derive-built d (code_set code ∷ copies) = derive-built (with_code d code) copies
derive-built d (level_set id level ∷ copies) = derive-built (with_level d id level) copies
derive-built d (ids_set meeting_id id ∷ copies) = derive-built (with_ids d meeting_id id) copies

abbrev Sends : Option BackTarget × Option ℕ → Type 0
Sends o = OriginSendable o.0 o.1

last_origin-Sends :
    (o : Option BackTarget × Option ℕ) (copies : List Copy) → Sends o → Sends (last_origin o copies)
last_origin-Sends o [] h = h
last_origin-Sends o (id_set n ∷ copies) h = last_origin-Sends o copies h
last_origin-Sends o (origin_set none ∷ copies) h = last_origin-Sends o copies h
last_origin-Sends o (origin_set (some p) ∷ copies) h =
    last_origin-Sends (some p.target, p.id) copies tt
last_origin-Sends o (page_set n page source ∷ copies) h = last_origin-Sends o copies h
last_origin-Sends o (date_set date ∷ copies) h = last_origin-Sends o copies h
last_origin-Sends o (code_set code ∷ copies) h = last_origin-Sends o copies h
last_origin-Sends o (level_set n level ∷ copies) h = last_origin-Sends o copies h
last_origin-Sends o (ids_set meeting_id n ∷ copies) h = last_origin-Sends o copies h

-- Whatever copies build a button from a declaration, in any order, a press is parsed as a callback of
-- the declaration with the record that the last copy to name one named, the last screen to return to
-- that was given, and the fields of the class as they were set last. The declaration's forms have no
-- separator and no character that is special in a regular expression, and the class's fields can be
-- told apart on the wire: a date is there and of the calendar, with a year of four digits, a code is
-- not empty and of its alphabet, a page is at least one, and a meeting's id is not zero. `to_date`
-- reads the text of such a date as that date.
pub parse-built :
    (to_date : Text → Option Date)
    → ((date : Date) → is_date date ≡ true → to_date (date_text date) ≡ some date)
    → (d : CallbackData) (copies : List Copy) → Declaration d
    → OriginSendable d.back d.back_id
    → ExtraSendable d.extra (last_extra d.extra copies)
    → bind (str (built d copies)) (λ wire. parse to_date d (match_pattern d wire))
      ≡ some (pressed d copies)
unfolding derive
parse-built to_date reads d copies declaration h sent =
    let same = derive-built d copies in
    let origins = last_origin-Sends (d.back, d.back_id) copies h in
    parse-str to_date reads d (built d copies) declaration (
      (
        inl (sym (ap (λ (c : CallbackData). c.action) same)),
        inl (sym (ap (λ (c : CallbackData). c.entity) same)),
      ),
      (
        subst Sends (sym (ap (λ (c : CallbackData). (c.back, c.back_id)) same)) origins,
        subst (ExtraSendable d.extra) (sym (ap (λ (c : CallbackData). c.extra) same)) sent,
      ),
    )
    ∙ ap some same
