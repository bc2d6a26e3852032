-- ===== src/Memory/PageTable/Access.antt =====
-- src/memory/page_table.rs: reading and writing through a page table. A byte of memory is known by its
-- physical address; the offset at which the kernel sees it plays no part. The bytes are those of frames
-- that hold no page table: what the mapper writes into its tables, or what a write into a table would do
-- to the mapping, is not part of them.
use good_os_framework.Base.{
  ℕ, zero, suc, ◌+◌, ◌^◌, ◌≤◌, ◌<◌, ◌≡◌, ◌≢◌, refl, sym, ap, ◌∙◌, some, none, Option, Outcome, done,
  panics, ◌>>=◌, arith, ℕ_discrete, List, [], ◌∷◌, length, get_or, set, length-set, get_or-set_self,
  get_or-set_ne, list_ext, ltb, lt→ltb, if◌then◌else◌, ◌==◌, ==_refl, ==_ne,
}
use good_os_framework.Data.Bitmap.{BitField}
use good_os_framework.Memory.Mapper.{Mapper}

abbrev pub Bytes : Type 0
Bytes = ℕ → ℕ

abbrev pub store : Bytes → ℕ → ℕ → Bytes
store m x byte y = if y == x then byte else m y

-- `ok_or(())?`: the result is `none` with the state at the error.
abbrev pub on_some :
    {A S : Type 0}
    → Option A
    → S
    → (A → Outcome (Option (Unit {0}) × S))
    → Outcome (Option (Unit {0}) × S)
on_some none s k = done (none, s)
on_some (some a) s k = k a

-- Different addresses lie at different places.
abbrev pub Apart : ℕ → (ℕ → ℕ) → Type 0
Apart n phys = (i j : ℕ) → i < n → j < n → i ≢ j → phys i ≢ phys j

module _ ⦃B : BitField⦄ {T : Type 0} ⦃M : Mapper T⦄ where
  -- The loop over the `n` offsets from `offset` on.
  unfoldable pub read_bytes : ℕ → ℕ → ℕ → T → Bytes → List ℕ → Outcome (Option (Unit {0}) × List ℕ)
  read_bytes zero offset address t m buffer = done (some tt, buffer)
  read_bytes (suc n) offset address t m buffer =
      let rest = read_bytes n (offset + 1) address t m in
      M.add address offset >>= λ src_address.
      on_some (M.translate_addr t src_address) buffer (λ physical_address.
        if ltb offset (length buffer)
        then rest (set buffer offset (m physical_address))
        else panics)

  unfoldable pub read : ℕ → ℕ → T → Bytes → List ℕ → Outcome (Option (Unit {0}) × List ℕ)
  read address len t m buffer = read_bytes len 0 address t m buffer

  -- The loop over the bytes that are left, the first of which is at `offset`.
  unfoldable pub write_bytes : List ℕ → ℕ → ℕ → T → Bytes → Outcome (Option (Unit {0}) × Bytes)
  write_bytes [] offset address t m = done (some tt, m)
  write_bytes (byte ∷ bytes) offset address t m =
      let rest = write_bytes bytes (offset + 1) address t in
      M.add address offset >>= λ target_address.
      on_some (M.translate_addr t target_address) m
        (λ physical_address. rest (store m physical_address byte))

  unfoldable pub write : List ℕ → ℕ → T → Bytes → Outcome (Option (Unit {0}) × Bytes)
  write buffer address t m = write_bytes buffer 0 address t m

  -- The `n` addresses from `address` on lie in the lower half and are translated, by `phys`.
  pub record Resolves (t : T) (address n : ℕ) (phys : ℕ → ℕ) : Type 0 where
    pub low : address + n ≤ 2 ^ 47
    pub translated : (i : ℕ) → i < n → M.translate_addr t (address + i) ≡ some (phys i)

  pub read_bytes_lem :
      (n offset address : ℕ) (t : T) (m : Bytes) (phys : ℕ → ℕ) (buffer : List ℕ)
      → Resolves t address (offset + n) phys
      → offset + n ≤ length buffer
      → (buffer' : List ℕ) × (read_bytes n offset address t m buffer ≡ done (some tt, buffer'))
        × (length buffer' ≡ length buffer)
        × ((i : ℕ) → offset ≤ i → i < offset + n → get_or buffer' i 0 ≡ m (phys i))
        × ((i : ℕ) → i < offset → get_or buffer' i 0 ≡ get_or buffer i 0)
  unfolding read_bytes
  read_bytes_lem zero offset address t m phys buffer r fits =
      (buffer, refl, refl, (λ i lo hi. absurd (omega arith)), (λ i lt. refl))
  read_bytes_lem (suc n) offset address t m phys buffer r fits =
      let byte = m (phys offset) in
      let one = set buffer offset byte in
      let (b, p, len, new, old) =
        read_bytes_lem n (offset + 1) address t m phys one
          (record { low = omega (arith, r.low); translated = λ i lt. r.translated i (omega arith) })
          (omega (arith, length-set buffer offset byte)) in
      (
        b,
        rw
            (
              M.add_lem address offset (omega (arith, r.low)),
              r.translated offset (omega arith),
              lt→ltb offset (length buffer) (omega arith),
            )
            p,
        len ∙ length-set buffer offset byte,
        (λ i lo hi. elim (ℕ_discrete i offset) [
          | yes e ↦
              ap (λ j. get_or b j 0) e
              ∙ old offset (omega arith)
              ∙ get_or-set_self buffer offset byte 0 (omega arith)
              ∙ ap (λ j. m (phys j)) (sym e)
          | no ne ↦ new i (omega arith) (omega arith)
        ]),
        (λ i lt. old i (omega arith) ∙ get_or-set_ne buffer offset i byte 0 (λ e. omega arith)),
      )

  pub write_bytes_lem :
      (bytes : List ℕ) (offset address : ℕ) (t : T) (m : Bytes) (phys : ℕ → ℕ)
      → Resolves t address (offset + length bytes) phys
      → Apart (offset + length bytes) phys
      → (m' : Bytes) × (write_bytes bytes offset address t m ≡ done (some tt, m'))
        × ((i : ℕ) → i < length bytes → m' (phys (offset + i)) ≡ get_or bytes i 0)
        × ((x : ℕ) → ((i : ℕ) → offset ≤ i → i < offset + length bytes → x ≢ phys i) → m' x ≡ m x)
  unfolding write_bytes
  write_bytes_lem [] offset address t m phys r apart =
      (m, refl, (λ i lt. absurd (omega arith)), (λ x out. refl))
  write_bytes_lem (byte ∷ bytes) offset address t m phys r apart =
      let one = store m (phys offset) byte in
      let (m', p, new, old) =
        write_bytes_lem bytes (offset + 1) address t one phys
          (record { low = omega (arith, r.low); translated = λ i lt. r.translated i (omega arith) })
          (λ i j lt lt' ne. apart i j (omega arith) (omega arith) ne) in
      (
        m',
        rw (M.add_lem address offset (omega (arith, r.low)), r.translated offset (omega arith)) p,
        (λ i lt.
            first_or_later bytes byte offset m' phys i lt
              (old (phys offset)
                  (λ j lo hi. apart offset j (omega arith) (omega arith) (λ e. omega arith))
                ∙ rw (==_refl (phys offset)) refl)
              new),
        (λ x out.
            old x (λ i lo hi. out i (omega arith) (omega arith))
            ∙ rw (==_ne x (phys offset) (out offset (omega arith) (omega arith))) refl),
      )
    where
      first_or_later :
          (bytes : List ℕ) (byte offset : ℕ) (m' : Bytes) (phys : ℕ → ℕ) (i : ℕ)
          → i < suc (length bytes)
          → m' (phys offset) ≡ byte
          → ((j : ℕ) → j < length bytes → m' (phys (offset + 1 + j)) ≡ get_or bytes j 0)
          → m' (phys (offset + i)) ≡ get_or (byte ∷ bytes) i 0
      first_or_later bytes byte offset m' phys zero lt first later =
          ap (λ j. m' (phys j)) {x = offset + 0} {y = offset} (omega arith) ∙ first
      first_or_later bytes byte offset m' phys (suc i) lt first later =
          ap (λ j. m' (phys j)) {x = offset + suc i} {y = offset + 1 + i} (omega arith)
          ∙ later i (omega arith)

  -- What is written at an address is read back from it, whatever the buffer of the reader held, if all
  -- addresses concerned lie in the lower half and are translated, no two of them to the same place.
  -- Both calls succeed, and the write changes no other place.
  pub read-write :
      (bytes buffer : List ℕ) (address : ℕ) (t : T) (m : Bytes) (phys : ℕ → ℕ)
      → Resolves t address (length bytes) phys
      → Apart (length bytes) phys
      → length buffer ≡ length bytes
      → (m' : Bytes) × (write bytes address t m ≡ done (some tt, m'))
        × (read address (length bytes) t m' buffer ≡ done (some tt, bytes))
        × ((x : ℕ) → ((i : ℕ) → i < length bytes → x ≢ phys i) → m' x ≡ m x)
  unfolding read write
  read-write bytes buffer address t m phys r apart same =
      let r0 : Resolves t address (0 + length bytes) phys = record {
        low = omega (arith, r.low);
        translated = λ i lt. r.translated i (omega arith);
      } in
      let (m', p, written, old) =
        write_bytes_lem bytes 0 address t m phys r0
          (λ i j lt lt' ne. apart i j (omega arith) (omega arith) ne) in
      let (b, q, len, new, kept) =
        read_bytes_lem (length bytes) 0 address t m' phys buffer r0 (omega arith) in
      let all : (b ≡ bytes) = list_ext 0 b bytes (len ∙ same) (λ i lt.
        new i (omega arith) (omega arith)
        ∙ ap (λ j. m' (phys j)) {x = i} {y = 0 + i} (omega arith)
        ∙ written i (omega arith)) in
      (
        m',
        p,
        q ∙ ap (λ c. done (some tt, c)) all,
        (λ x out. old x (λ i lo hi. out i (omega arith))),
      )
