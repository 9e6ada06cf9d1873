-- ===== src/Orders/Passengers.antt =====
-- `_masked_passenger_facts` of backend/app/modules/orders/services.py. The texts of a passenger are
-- lists of code points.
use Prim.Native.Nat.{max}
use travel_latest.Base.{ℕ, ◌-◌, Bool, ◌&&◌, ◌||◌, String, [], ◌∷◌, ◌++◌, ◌==◌, leb, if◌then◌else◌}
use travel_latest.Base.Lists.{length, take, drop, replicate}
use travel_latest.Orders.Model.{PassengerFacts, Text}

pub record Passenger : Type 0 where
  pub name : Text
  pub document_type : String
  pub document_number : Text
  pub seat_preference : String

-- `str.isspace` of one character
unfoldable pub is_space : ℕ → Bool
is_space c =
    (leb 0x09 c && leb c 0x0d)
    || (leb 0x1c c && leb c 0x20)
    || c == 0x85
    || c == 0xa0
    || c == 0x1680
    || (leb 0x2000 c && leb c 0x200a)
    || c == 0x2028
    || c == 0x2029
    || c == 0x202f
    || c == 0x205f
    || c == 0x3000

unfoldable pub strip_left : Text → Text
unfolding is_space
strip_left [] = []
strip_left (c ∷ s) = let rest = strip_left s in if is_space c then rest else c ∷ s

abbrev pub cons_unless_space : ℕ → Text → Text
unfolding is_space
cons_unless_space c [] = if is_space c then [] else c ∷ []
cons_unless_space c (d ∷ s) = c ∷ d ∷ s

unfoldable pub strip_right : Text → Text
unfolding is_space
strip_right [] = []
strip_right (c ∷ s) = cons_unless_space c (strip_right s)

-- `str.strip`
unfoldable pub strip : Text → Text
unfolding strip_left strip_right
strip s = strip_right (strip_left s)

abbrev pub star : ℕ
star = b'*'

-- `f"{name[:1]}{'*' * max(len(name) - 1, 1)}"`
unfoldable pub mask_name : Text → Text
mask_name name = take 1 name ++ replicate (max (length name - 1) 1) star

-- `f"{'*' * max(len(number) - 4, 4)}{number[-4:]}"`
unfoldable pub mask_number : Text → Text
mask_number number = replicate (max (length number - 4) 4) star ++ drop (length number - 4) number

unfoldable pub masked_passenger_facts : Passenger → PassengerFacts
unfolding strip mask_name mask_number
masked_passenger_facts p = record {
  masked_name = mask_name (strip p.name);
  document_type = p.document_type;
  masked_document_number = mask_number (strip p.document_number);
  seat_preference = p.seat_preference;
}
