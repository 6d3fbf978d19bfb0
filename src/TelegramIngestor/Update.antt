-- ===== src/TelegramIngestor/Update.antt =====
-- The fields of aiogram's updates that handlers.py reads, and its helpers on them.
use personal_intelligence.Base.{
  ℕ, ◌/◌, Bool, Option, none, some, ◌++◌, is_empty, Text, text, text_eq, ℤ, ◌==◌, day, Date,
  ord2ymd, show_nat, show_int, ltb, if◌then◌else◌,
}
use personal_intelligence.Contracts.{ChatType, private, group, supergroup, channel}

-- The type of a chat: a text, an enum by its value, or something else
pub data ChatKind : Type 0 where
  named : Text → ChatKind
  enum_value : Text → ChatKind
  other_kind : ChatKind

pub record TgUser : Type 0 where
  pub id : ℤ
  pub username : Option Text
  pub full_name : Text

pub record TgChat : Type 0 where
  pub id : ℤ
  pub kind : ChatKind
  pub title : Option Text
  pub full_name : Text

-- The media are there or not.
pub record Message : Type 0 where
  pub chat : TgChat
  pub message_id : ℤ
  pub date : Option ℕ
  pub from_user : Option TgUser
  pub content : Option Text
  pub caption : Option Text
  pub photo : Bool
  pub video : Bool
  pub voice : Bool
  pub audio : Bool
  pub document : Bool
  pub sticker : Bool
  pub video_note : Bool
  pub reply_to_message : Option ℤ
  pub is_forwarded : Bool

unfoldable pub media_type : Message → Option Text
media_type m =
    if m.photo
    then some (text "photo")
    else if m.video
    then some (text "video")
    else if m.voice
    then some (text "voice")
    else if m.audio
    then some (text "audio")
    else if m.document
    then some (text "document")
    else if m.sticker
    then some (text "sticker")
    else if m.video_note
    then some (text "video_note")
    else none

abbrev pub type_of_name : Text → ChatType
type_of_name name =
    if name == text "group"
    then group
    else if name == text "supergroup"
    then supergroup
    else if name == text "channel"
    then channel
    else private

unfoldable pub normalize_chat_type : ChatKind → ChatType
normalize_chat_type (named name) = type_of_name name
normalize_chat_type (enum_value name) = type_of_name name
normalize_chat_type other_kind = private

-- `a or b`, for texts that may be missing
abbrev pub text_or : Option Text → Option Text → Option Text
text_or none other = other
text_or (some t) other = if is_empty t then other else some t

-- `{n:02d}`
abbrev pub two_digits : ℕ → Text
two_digits n = if ltb n 10 then text "0" ++ show_nat n else show_nat n

abbrev pub slash : Text
slash = text "/"

abbrev pub dated_key : Date → ℤ → ℤ → Text
dated_key date chat_id message_id =
    show_nat date.year
    ++ slash
    ++ two_digits date.month
    ++ slash
    ++ two_digits date.day_of_month
    ++ slash
    ++ show_int chat_id
    ++ slash
    ++ show_int message_id
    ++ text ".json"

abbrev pub sent_at : Option ℕ → ℕ → ℕ
sent_at none now = now
sent_at (some sent) now = sent

-- The key by the day of the message, or of `now` without one
unfoldable pub s3_key : ℤ → ℤ → Option ℕ → ℕ → Text
s3_key chat_id message_id date now = dated_key (ord2ymd (sent_at date now / day)) chat_id message_id
