-- ===== src/Json/Lookup.antt =====
-- A field that an object names at most once (encoding/json).
use webull.Common.{
  String, ◌≡◌, refl, Bool, true, not, ◌&&◌, Option, none, some, inl, inr, Bool-cases, if◌then◌else◌,
}
use webull.Errors.{Result, ◌>>=◌, ok, err}
use webull.Transport.Http.{same_key}
use webull.Json.{Json, Fields, end, field, Decoder, read_field}

abbrev pub find_field : String → Fields → Option Json
find_field k end = none
find_field k (field j v fs) = if same_key j k then some v else find_field k fs

abbrev pub lacks : String → Fields → Bool
lacks k end = true
lacks k (field j v fs) = not (same_key j k) && lacks k fs

-- The object names the field once at most.
abbrev pub is_once : String → Fields → Bool
is_once k end = true
is_once k (field j v fs) = if same_key j k then lacks k fs else is_once k fs

abbrev pub decode_found {ℓ} : {A : Type ℓ} → Decoder A → A → Option Json → Result A
decode_found dec a none = ok a
decode_found dec a (some v) = dec a v

read_field-lacks {ℓ} :
    {A : Type ℓ} (k : String) (dec : Decoder A) (a : A) (fs : Fields)
    → lacks k fs ≡ true
    → read_field k dec a fs ≡ ok a
unfolding read_field
read_field-lacks k dec a end h = refl
read_field-lacks k dec a (field j v fs) h = elim (Bool-cases (same_key j k)) [
  | inl e ↦ absurd (cc (rw e at h))
  | inr e ↦ rw e (read_field-lacks k dec a fs (rw e at h))
]

bind-ok {ℓ} : {A : Type ℓ} (m : Result A) → (m >>= λ b. ok b) ≡ m
bind-ok (ok a) = refl
bind-ok (err e) = refl

bind-lacks {ℓ} :
    {A : Type ℓ} (k : String) (dec : Decoder A) (m : Result A) (fs : Fields)
    → lacks k fs ≡ true
    → (m >>= λ b. read_field k dec b fs) ≡ m
bind-lacks k dec (ok b) fs h = read_field-lacks k dec b fs h
bind-lacks k dec (err e) fs h = refl

-- It is decoded from the value that the object has there, if any.
pub read_field-once {ℓ} :
    {A : Type ℓ} (k : String) (dec : Decoder A) (a : A) (fs : Fields)
    → is_once k fs ≡ true
    → read_field k dec a fs ≡ decode_found dec a (find_field k fs)
unfolding read_field
read_field-once k dec a end h = refl
read_field-once k dec a (field j v fs) h = elim (Bool-cases (same_key j k)) [
  | inl e ↦ rw e (bind-lacks k dec (dec a v) fs (rw e at h))
  | inr e ↦ rw e (read_field-once k dec a fs (rw e at h))
]
