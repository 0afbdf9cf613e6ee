-- ===== src/Bookings/Inputs.antt =====
-- modules/bookings/bookings.service.ts: `normalizeInput` and `validateCreate`, over the characters
-- of the texts. A text that is stored stands as a number, distinct texts as distinct numbers.
use voyagi.Prelude.{
  ℕ, ◌+◌, ◌*◌, Bool, true, false, ◌&&◌, ◌||◌, not, List, [], ◌∷◌, Option, none, some, all, add_all,
  length, leb, ◌==◌, is_none, or_else, if◌then◌else◌, map, map_option,
}
use voyagi.Identity.Identifier.{Text, uuid_of, bigint_of, is_digit}
use voyagi.Store.Enums.{PassengerGender, unspecified}
use voyagi.Store.Monad.{
  M, pure, or_throw, throw_if, ◌>>=◌, ◌>>◌, booking_not_found, invalid_idempotency_key,
  invalid_seat_selection,
}
use voyagi.Payments.Service.{key_of}

pub record BookingPassengerInput : Type 0 where
  pub full_name : Text
  pub phone : Option Text
  pub document_number : Option Text
  pub boarding_station_id : Option Text
  pub gender : Option PassengerGender
  pub seat_id : Text

pub record CreateBookingInput : Type 0 where
  pub trip_id : Text
  pub passengers : List BookingPassengerInput

-- The white space and the line ends that `trim` takes off.
abbrev is_space : ℕ → Bool
is_space c =
    (leb 9 c && leb c 13)
    || c == 32
    || c == 160
    || c == 5760
    || (leb 8192 c && leb c 8202)
    || c == 8232
    || c == 8233
    || c == 8239
    || c == 8287
    || c == 12288
    || c == 65279

abbrev trim_start : Text → Text
trim_start [] = []
trim_start (c ∷ cs) = if is_space c then trim_start cs else c ∷ cs

abbrev is_empty : Text → Bool
is_empty [] = true
is_empty (c ∷ cs) = false

abbrev trim_end : Text → Text
trim_end [] = []
trim_end (c ∷ cs) = let rest = trim_end cs in if is_empty rest && is_space c then [] else c ∷ rest

unfoldable pub trim : Text → Text
trim cs = trim_end (trim_start cs)

unfoldable pub normalize_passenger : BookingPassengerInput → BookingPassengerInput
normalize_passenger p = record p {
  full_name = trim p.full_name;
  document_number = map_option trim p.document_number;
  gender = or_else p.gender (some unspecified);
}

unfoldable pub normalize_input : CreateBookingInput → CreateBookingInput
normalize_input input = record input { passengers = map normalize_passenger input.passengers }

-- A text as a number: each character is a digit above 0.
abbrev pub text_value : ℕ → Text → ℕ
text_value acc [] = acc
text_value acc (c ∷ cs) = text_value (acc * 1114113 + c + 1) cs

abbrev same_text : Text → Text → Bool
same_text [] [] = true
same_text [] (d ∷ ds) = false
same_text (c ∷ cs) [] = false
same_text (c ∷ cs) (d ∷ ds) = c == d && same_text cs ds

-- `/^\+?[0-9]{8,20}$/`
abbrev is_phone_number : Text → Bool
is_phone_number cs = leb 8 (length cs) && leb (length cs) 20 && all is_digit cs

unfoldable pub is_phone : Text → Bool
is_phone [] = false
is_phone (c ∷ cs) = if c == b'+' then is_phone_number cs else is_phone_number (c ∷ cs)

abbrev has_length : ℕ → ℕ → Text → Bool
has_length low high cs = leb low (length cs) && leb (length cs) high

abbrev is_absent_or : (Text → Bool) → Option Text → Bool
is_absent_or p none = true
is_absent_or p (some t) = p t

-- A gender is one of the enum's values by its type.
unfoldable pub is_valid_passenger : BookingPassengerInput → Bool
is_valid_passenger p =
    has_length 1 200 p.full_name
    && has_length 1 20 p.seat_id
    && same_text p.seat_id (trim p.seat_id)
    && is_absent_or is_phone p.phone
    && is_absent_or (has_length 1 100) p.document_number

abbrev is_bigint : Text → Bool
is_bigint t = not (is_none (bigint_of t))

-- `new Set(seats).size === seats.length`
unfoldable pub are_distinct : List ℕ → Bool
are_distinct seats = length (add_all seats []) == length seats

abbrev pub seat_value : BookingPassengerInput → ℕ
seat_value p = text_value 0 p.seat_id

-- The values of an accepted input: the actor, the key and the trip.
unfoldable pub validate_create_booking : Text → Option Text → CreateBookingInput → M (ℕ × ℕ × ℕ)
validate_create_booking actor_user_id idempotency_key input = do
  actor ← or_throw (uuid_of actor_user_id) booking_not_found
  key ← or_throw (key_of idempotency_key) invalid_idempotency_key
  trip ← or_throw (bigint_of input.trip_id) invalid_seat_selection
  throw_if (leb (length input.passengers) 0) invalid_seat_selection
  throw_if (not (leb (length input.passengers) 20)) invalid_seat_selection
  throw_if (not (all is_valid_passenger input.passengers)) invalid_seat_selection
  throw_if (not (are_distinct (map seat_value input.passengers))) invalid_seat_selection
  throw_if (not (all (λ p. is_absent_or is_bigint p.boarding_station_id) input.passengers))
      invalid_seat_selection
  pure (actor, key, trip)
