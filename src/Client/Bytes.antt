-- ===== src/Client/Bytes.antt =====
-- readBytes and writeBytes of RemoteProcessClient.cpp: the loops around Receive and Send.
use russian_ai_cup.Base.{
  ℕ, zero, suc, ◌+◌, ◌-◌, pos, negsuc, true, false, List, [], ◌++◌, length, take, drop, ltb, ◌==◌,
  if◌then◌else◌,
}
use russian_ai_cup.Client.Monad.{Platform, ok, exit, Action}

module _ {S : Type 0} (p : Platform S) where
  -- The `while` of readBytes, from `offset` bytes on. Each round gains a byte at least, so
  -- `byte_count` rounds of fuel are enough.
  unfoldable pub read_loop : ℕ → ℕ → ℕ → List ℕ → S → ℕ × List ℕ × S
  read_loop zero byte_count offset bytes s = (offset, bytes, s)
  read_loop (suc fuel) byte_count offset bytes s = elim (ltb offset byte_count) [
    | true ↦
        let (count, got, s') = p.receive (byte_count - offset) s in
        elim count [
          | pos zero ↦ (offset, bytes, s')
          | pos (suc k) ↦ read_loop fuel byte_count (offset + suc k) (bytes ++ take (suc k) got) s'
          | negsuc _ ↦ (offset, bytes, s')
        ]
    | false ↦ (offset, bytes, s)
  ]

  unfoldable pub read_bytes : ℕ → Action S (List ℕ)
  unfolding read_loop
  read_bytes byte_count c =
      let (offset, bytes, s) = read_loop byte_count byte_count 0 [] c.socket in
      (if offset == byte_count then ok bytes else exit 10012, record c { socket = s })

  unfoldable pub write_loop : ℕ → List ℕ → ℕ → S → ℕ × S
  write_loop zero bytes offset s = (offset, s)
  write_loop (suc fuel) bytes offset s = elim (ltb offset (length bytes)) [
    | true ↦
        let (count, s') = p.send (drop offset bytes) s in
        elim count [
          | pos zero ↦ (offset, s')
          | pos (suc k) ↦ write_loop fuel bytes (offset + suc k) s'
          | negsuc _ ↦ (offset, s')
        ]
    | false ↦ (offset, s)
  ]

  unfoldable pub write_bytes : List ℕ → Action S (Unit {0})
  unfolding write_loop
  write_bytes bytes c =
      let (offset, s) = write_loop (length bytes) bytes 0 c.socket in
      (if offset == length bytes then ok tt else exit 10013, record c { socket = s })
