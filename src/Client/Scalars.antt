-- ===== src/Client/Scalars.antt =====
-- The numbers, flags and texts of the protocol in RemoteProcessClient.cpp. A byte is its pattern,
-- a number below 256; int and long long are signed values of 32 and 64 bits.
use mathlib.Core.List.{reverse}
use russian_ai_cup.Base.{
  ℕ, zero, suc, ◌+◌, ◌-◌, ◌*◌, ◌/◌, ◌%◌, ◌^◌, ℤ, pos, negsuc, to_signed, of_signed, Bool, true,
  false, not, List, [], ◌∷◌, ◌++◌, length, take, drop, ◌==◌, ◌==ℤ◌, if◌then◌else◌,
}
use russian_ai_cup.Model.Double.{Double}
use russian_ai_cup.Client.Monad.{Platform, exit, undefined, Action, pure, fail, ◌>>=◌, ◌>>◌}
use russian_ai_cup.Client.Bytes.{read_bytes, write_bytes}

-- A number as `w` bytes, the lowest first, and back.
unfoldable pub bytes_of : ℕ → ℕ → List ℕ
bytes_of zero v = []
bytes_of (suc w) v = (v % 256) ∷ bytes_of w (v / 256)

unfoldable pub value_of : List ℕ → ℕ
value_of [] = 0
value_of (b ∷ bs) = b + 256 * value_of bs

-- std::reverse(&bytes[0], &bytes[n - 1]): the end of the range is left out, so the last byte stays.
unfoldable pub reverse_range : List ℕ → List ℕ
reverse_range bytes = reverse (take (length bytes - 1) bytes) ++ drop (length bytes - 1) bytes

abbrev pub first_byte : List ℕ → ℕ
first_byte [] = 0
first_byte (b ∷ _) = b

-- const bool LITTLE_ENDIAN_BYTE_ORDER = true
abbrev pub little_endian_byte_order : Bool
little_endian_byte_order = true

-- INTEGER_SIZE_BYTES and LONG_SIZE_BYTES: the sizes of int and long long.
abbrev pub integer_size_bytes : ℕ
integer_size_bytes = 4

abbrev pub long_size_bytes : ℕ
long_size_bytes = 8

-- `==` on bool.
abbrev pub same : Bool → Bool → Bool
same true b = b
same false b = not b

module _ {S : Type 0} (p : Platform S) where
  -- The bytes of a number in the machine's memory, and the number that bytes in memory are.
  unfoldable pub store : ℕ → ℕ → List ℕ
  unfolding bytes_of
  store w v = if p.little_endian then bytes_of w v else reverse (bytes_of w v)

  unfoldable pub load : List ℕ → ℕ
  unfolding value_of
  load bytes = value_of (if p.little_endian then bytes else reverse bytes)

  unfoldable pub is_little_endian_machine : Bool
  unfolding store
  is_little_endian_machine = first_byte (store 2 0x0201) == 1

  -- The step that readInt, writeInt, readLong and writeLong share.
  unfoldable pub reorder : List ℕ → List ℕ
  unfolding is_little_endian_machine reverse_range
  reorder bytes =
      if same is_little_endian_machine little_endian_byte_order then bytes else reverse_range bytes

  unfoldable pub read_enum : Action S ℤ
  read_enum = do bytes ← read_bytes p 1; pure (to_signed 256 (first_byte bytes))

  unfoldable pub write_enum : ℤ → Action S (Unit {0})
  write_enum value = write_bytes p (of_signed 256 value ∷ [])

  unfoldable pub read_boolean : Action S Bool
  read_boolean = do bytes ← read_bytes p 1; pure (not (first_byte bytes == 0))

  unfoldable pub write_boolean : Bool → Action S (Unit {0})
  write_boolean value = write_bytes p ((if value then 1 else 0) ∷ [])

  unfoldable pub read_int : Action S ℤ
  unfolding load reorder
  read_int = do
    bytes ← read_bytes p integer_size_bytes
    pure (to_signed (2 ^ 32) (load (reorder bytes)))

  unfoldable pub write_int : ℤ → Action S (Unit {0})
  unfolding store reorder
  write_int value = write_bytes p (reorder (store integer_size_bytes (of_signed (2 ^ 32) value)))

  unfoldable pub read_long : Action S ℤ
  unfolding load reorder
  read_long = do
    bytes ← read_bytes p long_size_bytes
    pure (to_signed (2 ^ 64) (load (reorder bytes)))

  unfoldable pub write_long : ℤ → Action S (Unit {0})
  unfolding store reorder
  write_long value = write_bytes p (reorder (store long_size_bytes (of_signed (2 ^ 64) value)))

  -- The bits of the long long, read as a double.
  unfoldable pub read_double : Action S Double
  unfolding read_long
  read_double = do value ← read_long; pure (of_signed (2 ^ 64) value)

  unfoldable pub write_double : Double → Action S (Unit {0})
  unfolding write_long
  write_double value = write_long (to_signed (2 ^ 64) value)

  -- `byteCount` is unsigned, so a length below -1 asks for nearly 2 ^ 32 bytes; should they come,
  -- no string has that length.
  unfoldable pub read_string : Action S (List ℕ)
  unfolding read_int
  read_string = do
    length ← read_int
    if length ==ℤ negsuc 0 then fail (exit 10014) else do
      bytes ← read_bytes p (of_signed (2 ^ 32) length)
      elim length [ pos _ ↦ pure bytes | negsuc _ ↦ fail undefined ]

  unfoldable pub write_string : List ℕ → Action S (Unit {0})
  unfolding write_int
  write_string value = do
    write_int (to_signed (2 ^ 32) (length value % 2 ^ 32))
    write_bytes p value
