-- ===== src/Notifications.antt =====
-- src/modules/notifications: phone.util.ts, notification-dispatch.service.ts and
-- movement-notifications.listener.ts. The directory and the WhatsApp client are parameters; the text
-- of a message is a function of its type and its values, which are kept.
pub mod Recipients
pub mod Groups
mod Tests
use aerobi_api.Common.{
  Bool, true, false, not, ◌&&◌, ◌||◌, List, [], ◌∷◌, ◌++◌, map, Option, none, some, String, str_eq,
  ℕ, ◌+◌, leb, ltb, if◌then◌else◌, any, filter, count, length, is_empty,
}
use aerobi_api.Common.Text.{Text, codes, trim, is_digit, same_text}
use aerobi_api.Registrations.{is_blank}
use aerobi_api.Movements.{MovementCreatedEvent, MovementType}

abbrev pub default_country_code : Text
default_country_code = codes "55"

abbrev pub min_digits : ℕ
min_digits = 12

unfoldable pub sanitize_phone : Text → Text
unfolding is_digit
sanitize_phone raw = filter is_digit raw

abbrev with_country : Text → Text → Text
with_country country_code digits =
    if leb 10 (length digits) && leb (length digits) 11 then country_code ++ digits else digits

abbrev long_enough : Text → Option Text
long_enough digits = if leb min_digits (length digits) then some digits else none

unfoldable pub to_whatsapp_number : Text → Option Text → Option Text
unfolding sanitize_phone
to_whatsapp_number country_code none = none
to_whatsapp_number country_code (some raw) =
    if is_blank (sanitize_phone raw)
    then none
    else long_enough (with_country country_code (sanitize_phone raw))

-- `dedupe`: blank recipients and repetitions are dropped.
abbrev pub fresh_recipients : List Text → List Text → List Text
fresh_recipients seen [] = []
fresh_recipients seen (raw ∷ rest) =
    let value = trim raw in
    let others = fresh_recipients seen rest in
    let later = value ∷ fresh_recipients (value ∷ seen) rest in
    if is_blank value || any (same_text value) seen then others else later

unfoldable pub dedupe : List Text → List Text
dedupe recipients = fresh_recipients [] recipients

-- The values of a message.
pub record SummaryItem : Type 0 where
  pub registration : Text
  pub aerodrome : Option Text
  pub operation_type : MovementType

pub data Notification : Type 0 where
  movement_created : Text → Text → MovementType → ℕ → Notification
  movements_batch_summary : ℕ → List SummaryItem → Notification

pub data Delivery : Type 0 where
  sent failed : Delivery

pub record DispatchItem : Type 0 where
  pub to : Text
  pub status : Delivery

pub record DispatchResult : Type 0 where
  pub sent_count : ℕ
  pub failed_count : ℕ
  pub skipped_count : ℕ
  pub items : List DispatchItem

abbrev pub is_sent : DispatchItem → Bool
is_sent i = elim i.status [ sent ↦ true | failed ↦ false ]

-- What the client makes of one message: the number it was sent to, or nothing where it throws.
abbrev pub Client : Type 0
Client = Text → Notification → Option Text

abbrev pub send_one : Client → Notification → Text → DispatchItem
send_one client message to = elim (client to message) [
  | none ↦ record { to = to; status = failed }
  | some number ↦ record { to = number; status = sent }
]

-- `NotificationDispatchService.dispatch`, for a type with a builder.
unfoldable pub dispatch : Client → List Text → Notification → DispatchResult
unfolding dedupe
dispatch client recipients message =
    let items = map (send_one client message) (dedupe recipients) in
    record {
      sent_count = count is_sent items;
      failed_count = count (λ i. not (is_sent i)) items;
      skipped_count = 0;
      items = items;
    }

-- The queries of the directory; `none` is one that throws. A contact may have no telephone.
pub record DirectoryPort : Type 0 where
  pub find_aerodrome_group_by_icao : Text → Option (Option String)
  pub find_group_contacts : String → Option (List (Option Text))

abbrev keep_numbers : List (Option Text) → List Text
keep_numbers [] = []
keep_numbers (none ∷ ns) = keep_numbers ns
keep_numbers (some n ∷ ns) = n ∷ keep_numbers ns

unfoldable pub phones_of : List (Option Text) → List Text
unfolding to_whatsapp_number
phones_of contacts = keep_numbers (map (to_whatsapp_number default_country_code) contacts)

-- A message with its recipients.
abbrev pub Message : Type 0
Message = List Text × Notification

abbrev pub to_contacts : Notification → Option (List (Option Text)) → List Message
unfolding phones_of
to_contacts message none = []
to_contacts message (some contacts) =
    if any (λ p. true) (phones_of contacts) then (phones_of contacts, message) ∷ [] else []

-- `!value`, of a text that may be missing.
abbrev pub named_group : Option (Option String) → Option String
named_group (some (some g)) = if is_empty g then none else some g
named_group _ = none

abbrev to_group : DirectoryPort → Notification → Option String → List Message
unfolding phones_of
to_group d message none = []
to_group d message (some g) = to_contacts message (d.find_group_contacts g)

abbrev movement_message : DirectoryPort → MovementCreatedEvent → Option Text → List Message
unfolding phones_of
movement_message d e none = []
movement_message d e (some aerodrome) =
    if is_blank aerodrome
    then []
    else to_group d (movement_created e.registration aerodrome e.operation_type e.reading_datetime)
        (named_group (d.find_aerodrome_group_by_icao aerodrome))

-- `handleMovementCreated`: what it dispatches.
unfoldable pub handle_movement_created : DirectoryPort → MovementCreatedEvent → List Message
unfolding phones_of
handle_movement_created d e = if e.batched then [] else movement_message d e e.aerodrome

-- The group of a movement: `none` where the query throws, `some none` where there is nobody to tell.
unfoldable pub group_of_movement : DirectoryPort → MovementCreatedEvent → Option (Option String)
group_of_movement d e = elim e.aerodrome [
  | none ↦ some none
  | some a ↦ if is_blank a then some none else elim (d.find_aerodrome_group_by_icao a) [
    | none ↦ none
    | some found ↦ some (named_group (some found))
  ]
]

-- `byGroup.set(groupId, [...list, movement])`: a new group comes last.
unfoldable pub push_to :
    String
    → MovementCreatedEvent
    → List (String × List MovementCreatedEvent)
    → List (String × List MovementCreatedEvent)
push_to g m [] = (g, m ∷ []) ∷ []
push_to g m ((h, ms) ∷ rest) =
    if str_eq h g then (h, ms ++ m ∷ []) ∷ rest else (h, ms) ∷ push_to g m rest

-- `groupMovementsByGroup`; the cache of the groups only spares queries.
unfoldable pub group_from :
    DirectoryPort
    → List (String × List MovementCreatedEvent)
    → List MovementCreatedEvent
    → Option (List (String × List MovementCreatedEvent))
unfolding push_to group_of_movement
group_from d groups [] = some groups
group_from d groups (m ∷ ms) = elim (group_of_movement d m) [
  | none ↦ none
  | some none ↦ group_from d groups ms
  | some (some g) ↦ group_from d (push_to g m groups) ms
]

unfoldable pub group_movements_by_group :
    DirectoryPort → List MovementCreatedEvent → Option (List (String × List MovementCreatedEvent))
unfolding group_from
group_movements_by_group d movements = group_from d [] movements

abbrev summary : List MovementCreatedEvent → Notification
summary ms = movements_batch_summary (length ms) (
    map
      (λ m. record {
        registration = m.registration;
        aerodrome = m.aerodrome;
        operation_type = m.operation_type;
      })
      ms)

abbrev summaries : DirectoryPort → List (String × List MovementCreatedEvent) → List Message
unfolding phones_of
summaries d [] = []
summaries d ((g, ms) ∷ groups) =
    to_contacts (summary ms) (d.find_group_contacts g) ++ summaries d groups

-- `handleBatchCreated`: what it dispatches; a group whose query throws is skipped.
unfoldable pub handle_batch_created : DirectoryPort → List MovementCreatedEvent → List Message
unfolding group_movements_by_group phones_of
handle_batch_created d movements = elim (group_movements_by_group d movements) [
  | none ↦ []
  | some groups ↦ summaries d groups
]
