-- ===== src/Lifetime.antt =====
-- distserve/lifetime.py: the events in the life of a request, and their form in JSON.
use Prim.Native.String.{String}
use package.text.Mathlib.Text.{◌==◌ as str_eq}
use recompute_or_migrate.Base.{
  ◌≡◌, refl, ap, ◌≢◌, Option, none, some, List, [], ◌∷◌, map, if◌then◌else◌, All, value_error,
  key_error, Result, ok, err, ◌>>=◌, or_raise,
}

pub data LifetimeEventType : Type 0 where
  issued context_begin context_end migration_begin : LifetimeEventType
  migration_end decoding_begin decoding_end : LifetimeEventType

-- `__str__`: the value of the member.
unfoldable pub str : LifetimeEventType → String
str issued = "issued"
str context_begin = "context_begin"
str context_end = "context_end"
str migration_begin = "migration_begin"
str migration_end = "migration_end"
str decoding_begin = "decoding_begin"
str decoding_end = "decoding_end"

-- The members, in the order of the class.
abbrev pub members : List LifetimeEventType
members =
    issued ∷ context_begin ∷ context_end ∷ migration_begin ∷ migration_end ∷ decoding_begin
    ∷ decoding_end ∷ []

-- The first member with the value.
unfoldable pub member_of : String → List LifetimeEventType → Option LifetimeEventType
unfolding str
member_of value [] = none
member_of value (t ∷ ts) = if str_eq (str t) value then some t else member_of value ts

member_of-str : (t : LifetimeEventType) → member_of (str t) members ≡ some t
unfolding member_of str
member_of-str issued = refl
member_of-str context_begin = refl
member_of-str context_end = refl
member_of-str migration_begin = refl
member_of-str migration_end = refl
member_of-str decoding_begin = refl
member_of-str decoding_end = refl

-- A value in JSON. `Number` is the type of the floating-point numbers.
pub data Json (Number : Type 0) : Type 0 where
  null : Json Number
  number : Number → Json Number
  text : String → Json Number

-- A JSON object.
abbrev pub Object : Type 0 → Type 0
Object Number = List (String × Json Number)

pub record LifetimeEvent (Number : Type 0) : Type 0 where
  pub event_type : LifetimeEventType
  pub timestamp : Json Number

module _ {Number : Type 0} where
  -- `LifetimeEventType(value)`
  unfoldable pub event_type_of : Json Number → Result LifetimeEventType
  unfolding member_of
  event_type_of (text value) = or_raise (member_of value members) value_error
  event_type_of null = err value_error
  event_type_of (number n) = err value_error

  -- `__init__`, where `now` is the time on the clock.
  unfoldable pub init : Number → LifetimeEventType → Json Number → LifetimeEvent Number
  init now event_type null = record { event_type = event_type; timestamp = number now }
  init now event_type (number n) = record { event_type = event_type; timestamp = number n }
  init now event_type (text t) = record { event_type = event_type; timestamp = text t }

  -- `object[key]`
  unfoldable pub field : String → Object Number → Result (Json Number)
  field key [] = err key_error
  field key ((name, value) ∷ fields) = if str_eq name key then ok value else field key fields

  unfoldable pub json_encode_event : LifetimeEvent Number → Object Number
  unfolding str
  json_encode_event event =
      ("timestamp", event.timestamp) ∷ ("event_type", text (str event.event_type)) ∷ []

  unfoldable pub json_encode_lifetime_events : List (LifetimeEvent Number) → List (Object Number)
  unfolding json_encode_event
  json_encode_lifetime_events events = map json_encode_event events

  unfoldable pub json_decode_event : Number → Object Number → Result (LifetimeEvent Number)
  unfolding field event_type_of init
  json_decode_event now event = do
    value ← field "event_type" event
    event_type ← event_type_of value
    timestamp ← field "timestamp" event
    ok (init now event_type timestamp)

  -- Every event is decoded, in order, or the whole call raises.
  unfoldable pub json_decode_lifetime_events :
      Number → List (Object Number) → Result (List (LifetimeEvent Number))
  unfolding json_decode_event
  json_decode_lifetime_events now [] = ok []
  json_decode_lifetime_events now (object ∷ objects) = do
    event ← json_decode_event now object
    events ← json_decode_lifetime_events now objects
    ok (event ∷ events)

  field-timestamp :
      (e : LifetimeEvent Number) → field "timestamp" (json_encode_event e) ≡ ok e.timestamp
  unfolding field json_encode_event
  field-timestamp e = refl

  field-event_type :
      (e : LifetimeEvent Number)
      → field "event_type" (json_encode_event e) ≡ ok (text (str e.event_type))
  unfolding field json_encode_event
  field-event_type e = refl

  -- The constructor leaves no event without a time.
  pub init-IsStamped :
      (now : Number) (t : LifetimeEventType) (stamp : Json Number)
      → (init now t stamp).timestamp ≢ null
  unfolding init
  init-IsStamped now t null = λ h. cc
  init-IsStamped now t (number n) = λ h. cc
  init-IsStamped now t (text s) = λ h. cc

  init_again :
      (now : Number) (t : LifetimeEventType) (stamp : Json Number)
      → stamp ≢ null
      → init now t stamp ≡ record { event_type = t; timestamp = stamp }
  unfolding init
  init_again now t null h = absurd (h refl)
  init_again now t (number n) h = refl
  init_again now t (text s) h = refl

  decode_encoded :
      (now : Number) (e : LifetimeEvent Number)
      → e.timestamp ≢ null
      → json_decode_event now (json_encode_event e) ≡ ok e
  unfolding json_decode_event event_type_of
  decode_encoded now e h =
      rw (field-event_type e, member_of-str e.event_type, field-timestamp e)
        (ap ok (init_again now e.event_type e.timestamp h))

  -- The events that the constructor builds, from any types and times, come back from their form in
  -- JSON as they were and in their order, whatever the clock says at the decoding.
  pub json_decode-json_encode :
      (now : Number) (events : List (LifetimeEvent Number))
      → All (λ e. e.timestamp ≢ null) events
      → json_decode_lifetime_events now (json_encode_lifetime_events events) ≡ ok events
  unfolding json_decode_lifetime_events json_encode_lifetime_events
  json_decode-json_encode now [] h = refl
  json_decode-json_encode now (e ∷ events) h =
      rw (decode_encoded now e h.0, json_decode-json_encode now events h.1) refl
