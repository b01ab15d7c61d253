-- ===== src/Client/Wire/Scalars.antt =====
-- Numbers, flags and texts on the wire, and the readers that meet them.
use native.Mathlib.Nat.{pow-suc}
use russian_ai_cup.Base.{
  ℕ, zero, suc, ◌*◌, ◌/◌, ◌^◌, ◌<◌, ◌≡◌, refl, ap, ℤ, pos, negsuc, to_signed, of_signed, IsSigned,
  to_signed-of_signed, Bool, true, false, List, [], ◌∷◌, ◌++◌, length, ◌==ℤ◌, arith,
}
use russian_ai_cup.Model.Double.{Double}
use russian_ai_cup.Client.Monad.{Platform, Caches}
use russian_ai_cup.Client.Scalars.{
  bytes_of, value_of, load, is_little_endian_machine, reorder, read_enum, read_boolean, read_int,
  read_long, read_double, read_string,
}
use russian_ai_cup.Client.Stream.{IsStream}
use russian_ai_cup.Client.Takes.{Takes, Takes-map, read_bytes-Takes, ◌into◌then◌}

abbrev pub IsInt : ℤ → Type 0
IsInt = IsSigned (2 ^ 32)

abbrev pub IsLong : ℤ → Type 0
IsLong = IsSigned (2 ^ 64)

abbrev pub IsDouble : Double → Type 0
IsDouble d = d < 2 ^ 64

-- A value of an enum that a signed char carries unchanged.
abbrev pub IsEnum : {E : Type 0} → (E → ℤ) → (ℤ → E) → E → Type 0
IsEnum code of e = IsSigned 256 (code e) × (of (code e) ≡ e)

abbrev pub print_enum : ℤ → List ℕ
print_enum v = of_signed 256 v ∷ []

abbrev pub print_boolean : Bool → List ℕ
print_boolean true = 1 ∷ []
print_boolean false = 0 ∷ []

abbrev pub print_int : ℤ → List ℕ
print_int v = bytes_of 4 (of_signed (2 ^ 32) v)

abbrev pub print_long : ℤ → List ℕ
print_long v = bytes_of 8 (of_signed (2 ^ 64) v)

abbrev pub print_double : Double → List ℕ
print_double d = bytes_of 8 d

abbrev pub print_string : List ℕ → List ℕ
print_string text = print_int (pos (length text)) ++ text

pub length-bytes_of : (w v : ℕ) → length (bytes_of w v) ≡ w
unfolding bytes_of
length-bytes_of zero v = refl
length-bytes_of (suc w) v = ap suc (length-bytes_of w (v / 256))

pub value_of-bytes_of : (w v : ℕ) → v < 256 ^ w → value_of (bytes_of w v) ≡ v
unfolding bytes_of value_of
value_of-bytes_of zero v h = omega arith
value_of-bytes_of (suc w) v h =
    let p : 256 ^ suc w ≡ 256 ^ w * 256 = pow-suc 256 w in
    omega (arith, value_of-bytes_of w (v / 256) (omega arith))

of_signed-lt : (m : ℕ) (v : ℤ) → IsSigned m v → of_signed m v < m
of_signed-lt m (pos n) h = omega arith
of_signed-lt m (negsuc n) h = omega arith

pub is_little-eq :
    {S : Type 0} (p : Platform S) → p.little_endian ≡ true → is_little_endian_machine p ≡ true
unfolding is_little_endian_machine bytes_of
is_little-eq p e = ground arith

pub load-reorder :
    {S : Type 0} (p : Platform S) (bytes : List ℕ)
    → p.little_endian ≡ true
    → load p (reorder p bytes) ≡ value_of bytes
unfolding load reorder
load-reorder p bytes e = ground (arith, is_little-eq p e)

module _ {S : Type 0} {p : Platform S} (net : IsStream p) (little : p.little_endian ≡ true) where
  pub read_enum-Takes :
      (v : ℤ) (k : Caches) → IsSigned 256 v → Takes net (read_enum p) k (print_enum v) v k
  unfolding read_enum
  read_enum-Takes v k h =
      Takes-map (read_bytes-Takes net 1 (print_enum v) k refl) _ (to_signed-of_signed 256 v h)

  pub read_boolean-Takes :
      (b : Bool) (k : Caches) → Takes net (read_boolean p) k (print_boolean b) b k
  unfolding read_boolean
  read_boolean-Takes true k = Takes-map (read_bytes-Takes net 1 (print_boolean true) k refl) _ refl
  read_boolean-Takes false k =
      Takes-map (read_bytes-Takes net 1 (print_boolean false) k refl) _ refl

  -- The bytes of `v`, read in the machine's memory.
  loaded :
      (w m : ℕ) (v : ℤ)
      → 256 ^ w ≡ m
      → IsSigned m v
      → to_signed m (load p (reorder p (bytes_of w (of_signed m v)))) ≡ v
  loaded w m v e h =
      rw
        (
          load-reorder p (bytes_of w (of_signed m v)) little,
          value_of-bytes_of w (of_signed m v) (rw e (of_signed-lt m v h)),
        )
        (to_signed-of_signed m v h)

  pub read_int-Takes : (v : ℤ) (k : Caches) → IsInt v → Takes net (read_int p) k (print_int v) v k
  unfolding read_int
  read_int-Takes v k h =
      Takes-map (read_bytes-Takes net 4 (print_int v) k (length-bytes_of 4 (of_signed (2 ^ 32) v)))
        _ (loaded 4 (2 ^ 32) v refl h)

  pub read_long-Takes :
      (v : ℤ) (k : Caches) → IsLong v → Takes net (read_long p) k (print_long v) v k
  unfolding read_long
  read_long-Takes v k h =
      Takes-map (read_bytes-Takes net 8 (print_long v) k (length-bytes_of 8 (of_signed (2 ^ 64) v)))
        _ (loaded 8 (2 ^ 64) v refl h)

  to_signed-IsSigned : (d : Double) → IsDouble d → IsLong (to_signed (2 ^ 64) d)
  to_signed-IsSigned d h = ground arith

  of_signed-to_signed : (d : Double) → IsDouble d → of_signed (2 ^ 64) (to_signed (2 ^ 64) d) ≡ d
  of_signed-to_signed d h = ground arith

  -- On a little-endian machine with a stream for a socket: readDouble takes the eight bytes of a
  -- 64-bit pattern, the lowest first, and returns the pattern; on a stream that ends inside them it
  -- ends the process by exit(10012).
  pub read_double-Takes :
      (d : Double) (k : Caches) → IsDouble d → Takes net (read_double p) k (print_double d) d k
  unfolding read_double
  read_double-Takes d k h =
      Takes-map
        (rw (of_signed-to_signed d h) at
          (read_long-Takes (to_signed (2 ^ 64) d) k (to_signed-IsSigned d h)))
        _ (of_signed-to_signed d h)

  not_minus_one : (n : ℕ) → (pos n ==ℤ negsuc 0) ≡ false
  not_minus_one n = ground arith

  -- On a little-endian machine with a stream for a socket: readString takes a length (below 2^31)
  -- and so many bytes, and returns them; on a stream that ends inside them it ends the process by
  -- exit(10012).
  pub read_string-Takes :
      (text : List ℕ) (k : Caches)
      → IsInt (pos (length text))
      → Takes net (read_string p) k (print_string text) text k
  unfolding read_string
  read_string-Takes text k h =
      read_int-Takes (pos (length text)) k h
      into _ then
        rw (not_minus_one (length text))
          (Takes-map (read_bytes-Takes net (length text) text k refl) (λ b. b) refl)
