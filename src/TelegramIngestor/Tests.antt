-- ===== src/TelegramIngestor/Tests.antt =====
-- An update, and the theorems there.
use personal_intelligence.Base.{
  ◌≡◌, refl, true, false, none, some, [], ◌∷◌, ◌++◌, text, pos, show_nat, show_int, ord2ymd,
  month_of, days_in_month, is_leap,
}
use personal_intelligence.TelegramIngestor.Update.{named, Message, media_type, s3_key}
use personal_intelligence.TelegramIngestor.Handlers.{
  message_event, State, S3, Stamp, has_raw, full_key, event_of, storage_key_of, on_business_message,
}
use personal_intelligence.TelegramIngestor.Stored.{
  raw_key_misses, IsIngested, on_business_message-IsIngested,
}

abbrev update : Message
update = record {
  chat = record {
    id = pos 7;
    kind = named (text "private");
    title = none;
    full_name = text "Anna";
  };
  message_id = pos 3;
  date = some 0;
  from_user = some (record { id = pos 100; username = none; full_name = text "Anna" });
  content = none;
  caption = some (text "a photo");
  photo = true;
  video = false;
  voice = false;
  audio = false;
  document = false;
  sticker = false;
  video_note = false;
  reply_to_message = none;
  is_forwarded = false;
}

abbrev s3 : S3
s3 = record { is_configured = true; put_error = λ key. none }

abbrev stamp : Stamp
stamp = record { event_id = text "e1"; occurred_at = 5 }

abbrev empty_state : State
empty_state = record { objects = []; published = [] }

names_day : storage_key_of stamp update ≡ text "1/01/01/7/3.json"
unfolding s3_key ord2ymd month_of days_in_month is_leap show_nat show_int
names_day = refl

names_media : media_type update ≡ some (text "photo")
unfolding media_type
names_media = refl

raw_key_misses_example :
    let after = on_business_message s3 stamp update empty_state in
    (after.published
      ≡ [] ++ message_event (event_of stamp update) (some (storage_key_of stamp update)) ∷ [])
    × ((has_raw (full_key (storage_key_of stamp update)) after ≡ true)
        × (has_raw (storage_key_of stamp update) after ≡ false))
unfolding has_raw
raw_key_misses_example = raw_key_misses s3 stamp update empty_state refl refl refl

on_business_message-IsIngested_example :
    IsIngested s3 stamp update empty_state (on_business_message s3 stamp update empty_state)
on_business_message-IsIngested_example = on_business_message-IsIngested s3 stamp update empty_state
