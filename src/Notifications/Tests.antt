-- ===== src/Notifications/Tests.antt =====
-- A batch of three movements at two aerodromes, and telephones written in several ways.
use aerobi_api.Common.{
  ◌≡◌, refl, true, ◌&&◌, [], ◌∷◌, List, none, some, String, ◌+◌, length, any, count, filter,
  if◌then◌else◌,
}
use aerobi_api.Common.Text.{Text, codes, same_text}
use aerobi_api.Movements.{MovementCreatedEvent, MovementType, MovementSource}
use aerobi_api.Validators.{is_e164}
use aerobi_api.Notifications.{
  Notification, Client, DirectoryPort, dedupe, dispatch, default_country_code, to_whatsapp_number,
  group_movements_by_group, handle_movement_created, handle_batch_created, push_to, group_from,
  group_of_movement, sanitize_phone, phones_of,
}
use aerobi_api.Notifications.Recipients.{names, dispatch-once, to_whatsapp_number-e164}
use aerobi_api.Notifications.Groups.{entry, belongs, keyed, group_movements_by_group-Divides}

abbrev client : Client
client to message = if same_text to (codes "5511999990000") then none else some to

abbrev directory : DirectoryPort
directory = record {
  find_aerodrome_group_by_icao =
      λ a. some (if same_text a (codes "SBAA") then some "north" else some "south");
  find_group_contacts = λ g. some (some (codes "+55 (11) 98888-7777") ∷ none ∷ []);
}

abbrev landed : String → Text → MovementCreatedEvent
landed id aerodrome = record {
  movement_id = id;
  registration = codes "PTABC";
  aerodrome = some aerodrome;
  operation_type = MovementType.landing;
  source = MovementSource.manual;
  reading_datetime = 100;
  batched = true;
}

abbrev batch : List MovementCreatedEvent
batch = landed "m1" (codes "SBAA") ∷ landed "m2" (codes "SBBB") ∷ landed "m3" (codes "SBAA") ∷ []

abbrev message : Notification
message = Notification.movements_batch_summary 0 []

abbrev recipients : List Text
recipients =
    codes " 5511988887777" ∷ codes "5511999990000" ∷ codes "  " ∷ codes "5511988887777" ∷ []

national :
    to_whatsapp_number default_country_code (some (codes "(11) 98888-7777"))
    ≡ some (codes "5511988887777")
unfolding to_whatsapp_number sanitize_phone
national = refl

groups_told : length (handle_batch_created directory batch) ≡ 2
unfolding handle_batch_created group_movements_by_group group_from group_of_movement push_to
    phones_of to_whatsapp_number sanitize_phone
groups_told = refl

batched_untold : handle_movement_created directory (landed "m1" (codes "SBAA")) ≡ []
unfolding handle_movement_created
batched_untold = refl

dispatched_example :
    (count (same_text (codes "5511988887777")) (dedupe recipients)
      ≡ (if any (names (codes "5511988887777")) recipients && true then 1 else 0))
    × ((dispatch client recipients message).sent_count
          + (dispatch client recipients message).failed_count
        ≡ length (dedupe recipients))
dispatched_example = dispatch-once client recipients message (codes "5511988887777")

foreign_example :
    to_whatsapp_number default_country_code (some (codes "+12025550123"))
    ≡ some (codes "5512025550123")
unfolding is_e164
foreign_example = to_whatsapp_number-e164 (codes "12025550123") refl

divided_example :
    (gs : List (String × List MovementCreatedEvent)) × (group_movements_by_group directory batch
      ≡ some gs)
    × ((g : String)
        → (entry g gs ≡ filter (belongs directory g) batch)
          × (count (keyed g) gs ≡ (if any (belongs directory g) batch then 1 else 0)))
unfolding group_of_movement
divided_example = group_movements_by_group-Divides directory batch refl
