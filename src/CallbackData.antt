-- ===== src/CallbackData.antt =====
-- The data of the buttons: libs/core/mitup_bot/callback_data.py. A callback's class is the
-- constructor of its `extra`, which holds the fields the subclass adds. Texts are lists of code
-- points, and the wire is ASCII. Identifiers are natural numbers.
pub mod Regex
pub mod Parse
pub mod RoundTrip
pub mod Routing
pub mod Buttons
mod Tests
use mitup_telegram_bot.Base.{
  ℕ, zero, suc, ◌+◌, ◌/◌, ◌%◌, Bool, true, false, ◌&&◌, ◌||◌, Option, none, some, List, [], ◌∷◌,
  ◌++◌, is_none, bind, opt_eq, Text, codes, text_eq, decimal,
}

-- The values of an enumeration are the characters its constructors name.
pub data MeetingListSource : Type 0 where
  active : MeetingListSource
  joined : MeetingListSource

abbrev pub source_value : MeetingListSource → Text
source_value active = codes "a"
source_value joined = codes "j"

pub data BackTarget : Type 0 where
  meeting_editor : BackTarget

abbrev pub target_value : BackTarget → Text
target_value meeting_editor = codes "e"

pub record BackOrigin : Type 0 where
  pub target : BackTarget
  pub id : Option ℕ

-- `dt.date`.
pub record Date : Type 0 where
  pub year : ℕ
  pub month : ℕ
  pub day : ℕ

-- What a subclass of `CallbackData` adds.
pub data Extra : Type 0 where
  plain : Extra
  date_extra : Option Date → Extra
  code_extra : Option Text → Extra
  page_extra : Option ℕ → Option MeetingListSource → Extra
  grant_extra : Option ℕ → Extra
  meeting_extra : Option ℕ → Extra

pub record CallbackData : Type 0 where
  pub entity : Text
  pub action : Text
  pub id : Option ℕ
  pub aliases : List (Text × Text)
  pub back : Option BackTarget
  pub back_id : Option ℕ
  pub extra : Extra

abbrev pub unknown_entity : Text
unknown_entity = codes "unknown"

-- `'' if n is None else n`.
pub optional_number : Option ℕ → Text
optional_number none = []
optional_number (some n) = decimal n

-- Two and four digits of a date.
abbrev pub two_digits : ℕ → Text
two_digits n = (48 + n / 10 % 10) ∷ (48 + n % 10) ∷ []

abbrev pub four_digits : ℕ → Text
four_digits n = (48 + n / 1000 % 10) ∷ (48 + n / 100 % 10) ∷ two_digits n

-- `f"{date:%Y-%m-%d}"` of a year of four digits.
abbrev pub date_text : Date → Text
date_text date = four_digits date.year ++ 45 ∷ two_digits date.month ++ 45 ∷ two_digits date.day

pub origin_text : Option BackTarget → Option ℕ → Text
origin_text none back_id = []
origin_text (some target) back_id = codes ";back:" ++ target_value target ++ optional_number back_id

-- The separators `;` and `:` are the code points 59 and 58.
pub base_str : CallbackData → Text
base_str c =
    c.action ++ (59 ∷ (c.entity ++ (58 ∷ (optional_number c.id ++ origin_text c.back c.back_id))))

-- `f"{None:%Y-%m-%d}"` raises, so a date callback without its date has no text.
pub date_suffix : Option Date → Option Text
date_suffix none = none
date_suffix (some date) = some (codes ";date:" ++ date_text date)

pub code_suffix : Option Text → Text
code_suffix none = codes ";code:"
code_suffix (some code) = codes ";code:" ++ code

abbrev pub page_suffix : Option ℕ → Text
page_suffix none = []
page_suffix (some page) = codes ";page:" ++ decimal page

abbrev pub source_suffix : Option MeetingListSource → Text
source_suffix none = []
source_suffix (some source) = codes ";src:" ++ source_value source

pub paginated_suffix : Option ℕ → Option MeetingListSource → Text
paginated_suffix page source = page_suffix page ++ source_suffix source

pub grant_suffix : Option ℕ → Text
grant_suffix level = codes ";lvl:" ++ optional_number level

-- `self.meeting_id or ''`: zero is printed as nothing.
pub meeting_suffix : Option ℕ → Text
meeting_suffix none = codes ":"
meeting_suffix (some zero) = codes ":"
meeting_suffix (some (suc n)) = codes ":" ++ decimal (suc n)

pub suffix : Extra → Option Text
suffix plain = some []
suffix (date_extra date) = date_suffix date
suffix (code_extra code) = some (code_suffix code)
suffix (page_extra page source) = some (paginated_suffix page source)
suffix (grant_extra level) = some (grant_suffix level)
suffix (meeting_extra meeting_id) = some (meeting_suffix meeting_id)

-- `str(c)`, which the keyboards send; none where it raises.
pub str : CallbackData → Option Text
str c = bind (suffix c.extra) (λ s. some (base_str c ++ s))

-- Copies keep every field but `aliases` and the ones they set.
pub derive : CallbackData → CallbackData
derive c = record c { aliases = [] }

pub with_id : CallbackData → ℕ → CallbackData
with_id c id = record (derive c) { id = some id }

abbrev pub origin : CallbackData → Option BackOrigin
origin c = elim c.back [
  | none ↦ none
  | some target ↦ some (record { target = target; id = c.back_id })
]

pub with_origin : CallbackData → Option BackOrigin → CallbackData
with_origin c none = c
with_origin c (some o) = record (derive c) { back = some o.target; back_id = o.id }

pub with_page : CallbackData → ℕ → ℕ → Option MeetingListSource → CallbackData
with_page c id page source = record (derive c) {
  id = some id;
  extra = page_extra (some page) source;
}

pub with_date : CallbackData → Date → CallbackData
with_date c date = record (derive c) { extra = date_extra (some date) }

pub with_code : CallbackData → Text → CallbackData
with_code c code = record (derive c) { extra = code_extra (some code) }

pub with_level : CallbackData → ℕ → ℕ → CallbackData
with_level c id level = record (derive c) { id = some id; extra = grant_extra (some level) }

pub with_ids : CallbackData → ℕ → ℕ → CallbackData
with_ids c meeting_id id = record (derive c) {
  id = some id;
  extra = meeting_extra (some meeting_id);
}

abbrev pub is_unknown : CallbackData → Bool
is_unknown c = text_eq c.entity unknown_entity

-- The subclasses addressed by a code or a tier ask for theirs.
abbrev pub is_malformed : CallbackData → Bool
is_malformed c = elim c.extra [
  | plain ↦ is_none c.id || is_unknown c
  | date_extra _ ↦ is_none c.id || is_unknown c
  | code_extra code ↦ is_none code || is_unknown c
  | page_extra _ _ ↦ is_none c.id || is_unknown c
  | grant_extra level ↦ (is_none c.id || is_unknown c) || is_none level
  | meeting_extra _ ↦ is_none c.id || is_unknown c
]

-- `__eq__`: neither the origin nor what a subclass adds is compared.
abbrev pub callback_eq : CallbackData → CallbackData → Bool
callback_eq c other =
    opt_eq c.id other.id && text_eq c.entity other.entity && text_eq c.action other.action
