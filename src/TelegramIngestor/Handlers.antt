-- ===== src/TelegramIngestor/Handlers.antt =====
-- The handlers of handlers.py and `put_raw` of s3_client.py. The bodies of the objects are left out;
-- the client of S3 may raise.
use personal_intelligence.Base.{
  ℕ, Bool, Option, none, some, List, [], ◌∷◌, ◌++◌, Text, text, text_eq, ℤ, elem, if◌then◌else◌,
}
use personal_intelligence.Exec.{Error, Result, ok, err}
use personal_intelligence.Contracts.{
  TelegramMessageEvent, TelegramMessageEditedEvent, TelegramMessageDeletedEvent,
}
use personal_intelligence.TelegramIngestor.Update.{
  TgUser, Message, media_type, normalize_chat_type, text_or, s3_key,
}

-- The events, with the fields that no other service reads beside them: the key of the raw object of a
-- message, and a connection.
pub data Published : Type 0 where
  message_event : TelegramMessageEvent → Option Text → Published
  edited_event : TelegramMessageEditedEvent → Published
  deleted_event : TelegramMessageDeletedEvent → Published
  connection_event : Text → ℤ → Bool → Published

-- `objects` is the keys in the bucket of raw objects.
pub record State : Type 0 where
  pub objects : List Text
  pub published : List Published

-- Whether the storage is configured, and what its client raises for a key, with whether the object was
-- stored nevertheless: a time-out may come after the write.
pub record S3 : Type 0 where
  pub is_configured : Bool
  pub put_error : Text → Option (Error × Bool)

-- What the base of an event draws: its id and its time, which is also the time of the handler.
pub record Stamp : Type 0 where
  pub event_id : Text
  pub occurred_at : ℕ

abbrev pub store_object : Text → State → State
store_object key s = record s { objects = s.objects ++ key ∷ [] }

abbrev pub put_bucket_object : Text → Option (Error × Bool) → State → Result Text × State
put_bucket_object key none s = (ok key, store_object key s)
put_bucket_object key (some (e, stored)) s = (err e, if stored then store_object key s else s)

abbrev pub full_key : Text → Text
full_key key = text "raw/" ++ key

unfoldable pub put_raw : S3 → Text → State → Result Text × State
put_raw s3 key s = put_bucket_object (full_key key) (s3.put_error (full_key key)) s

-- `get_raw` finds an object.
unfoldable pub has_raw : Text → State → Bool
has_raw key s = elem key s.objects

-- The result of the put is not used: the key is the one that was given to it.
abbrev pub key_after : Text → Result Text → Option Text
key_after storage_key (ok stored) = some storage_key
key_after storage_key (err e) = none

unfoldable pub persist : S3 → Text → State → Option Text × State
persist s3 storage_key s =
    let (result, after) = put_raw s3 storage_key s in
    if s3.is_configured then (key_after storage_key result, after) else (none, s)

unfoldable pub publish : Published → State → State
publish event s = record s { published = s.published ++ event ∷ [] }

abbrev pub sender_id : Option TgUser → Option ℤ
sender_id none = none
sender_id (some user) = some user.id

abbrev pub sender_username : Option TgUser → Option Text
sender_username none = none
sender_username (some user) = user.username

abbrev pub sender_name : Option TgUser → Option Text
sender_name none = none
sender_name (some user) = some user.full_name

unfoldable pub event_of : Stamp → Message → TelegramMessageEvent
event_of stamp m = record {
  event_id = stamp.event_id;
  occurred_at = stamp.occurred_at;
  trace_id = none;
  tg_chat_id = m.chat.id;
  tg_message_id = m.message_id;
  tg_sender_id = sender_id m.from_user;
  tg_sender_username = sender_username m.from_user;
  tg_sender_name = sender_name m.from_user;
  chat_title = text_or m.chat.title (some m.chat.full_name);
  chat_type = normalize_chat_type m.chat.kind;
  content = text_or m.content m.caption;
  media_type = media_type m;
  reply_to_message_id = m.reply_to_message;
  is_forwarded = m.is_forwarded;
  tg_date = m.date;
}

abbrev pub storage_key_of : Stamp → Message → Text
storage_key_of stamp m = s3_key m.chat.id m.message_id m.date stamp.occurred_at

unfoldable pub on_business_message : S3 → Stamp → Message → State → State
on_business_message s3 stamp m s =
    let (raw_key, after) = persist s3 (storage_key_of stamp m) s in
    publish (message_event (event_of stamp m) raw_key) after

unfoldable pub on_edited_business_message : Stamp → Message → State → State
on_edited_business_message stamp m s =
    publish
      (edited_event (record {
        event_id = stamp.event_id;
        occurred_at = stamp.occurred_at;
        trace_id = none;
        tg_chat_id = m.chat.id;
        tg_message_id = m.message_id;
        new_text = text_or m.content m.caption;
      }))
      s

unfoldable pub on_deleted_business_messages : Stamp → ℤ → List ℤ → State → State
on_deleted_business_messages stamp chat_id message_ids s =
    publish
      (deleted_event (record {
        event_id = stamp.event_id;
        occurred_at = stamp.occurred_at;
        trace_id = none;
        tg_chat_id = chat_id;
        tg_message_ids = message_ids;
      }))
      s

unfoldable pub on_business_connection : Text → ℤ → Bool → State → State
on_business_connection connection_id user_id is_enabled s =
    publish (connection_event connection_id user_id is_enabled) s
