-- ===== src/ReplayStore/Reload.antt =====
-- crates/acp-mux/src/replay_store.rs: a file that was appended to, read again.
use acp_mux.Base.{
  ℕ, ◌≡◌, ◌≢◌, ◌≤◌, refl, ap, sym, ◌∙◌, String, false, List, [], ◌∷◌, ◌++◌, Option, none, some,
  eq_nat, u64_max, All, inl, inr, ◌⊎◌, arith, and_then-some, some-and_then,
}
use mathlib.Core.List.{append_assoc, append-nil}
use acp_mux.Json.{Value, get_key}
use acp_mux.Jsonrpc.{struct_field, is_struct}
use acp_mux.Host.{Host, Bytes, is_empty}
use acp_mux.Core.{PersistedFrame}
use acp_mux.Server.{pop_byte}
use acp_mux.ReplayStore.{
  record_version, u32_max, record_to_value, record_of_value, unsigned, lines_from, without_return,
  load_line, load_lines, load_existing, record_of, append, keep,
}

-- What is written fits its field.
pub record IsRecord (r : PersistedFrame) : Type 0 where
  pub version : r.v ≤ u32_max
  pub number : r.seq ≤ u64_max
  pub tag : r.segment_id ≤ u64_max

pub record_of_value-to_value :
    (r : PersistedFrame) → IsRecord r → record_of_value (record_to_value r) ≡ some r
unfolding record_of_value record_to_value struct_field is_struct unsigned get_key
record_of_value-to_value r k = ground arith

-- A printed line that is read as it was printed: it is UTF-8, has no line feed, does not end in a carriage
-- return, and parses to the value that was printed.
pub record IsPrinted (h : Host) (v : Value) (line : Bytes) : Type 0 where
  pub text : String
  pub is_text : h.from_utf8 line ≡ some text
  pub nonempty : is_empty line ≡ false
  pub one_line : All (λ b. b ≢ b'\n') line
  pub no_return : pop_byte b'\r' line ≡ none
  pub parses : h.from_slice line ≡ some v

-- A text up to a line feed, and after it.
lines_from-append :
    (begun bs rest : Bytes)
    → lines_from begun (bs ++ b'\n' ∷ rest)
      ≡ lines_from begun (bs ++ b'\n' ∷ []) ++ lines_from [] rest
unfolding lines_from
lines_from-append begun [] rest = refl
lines_from-append begun (b ∷ bs) rest =
    ground (arith, lines_from-append [] bs rest, lines_from-append (begun ++ b ∷ []) bs rest)

lines_from-line :
    (begun line : Bytes)
    → All (λ b. b ≢ b'\n') line
    → lines_from begun (line ++ b'\n' ∷ []) ≡ without_return (begun ++ line) ∷ []
unfolding lines_from
lines_from-line begun [] k = ap (λ l. without_return l ∷ []) (sym (append-nil begun))
lines_from-line begun (b ∷ line) k =
    ground
      (arith, k.0, lines_from-line (begun ++ b ∷ []) line k.1, append_assoc begun (b ∷ []) line)

-- The file is empty, or its last line is complete.
abbrev pub IsComplete : Bytes → Type 0
IsComplete file = (file ≡ []) ⊎ ((front : Bytes) × (file ≡ front ++ b'\n' ∷ []))

lines_from_complete :
    (file line : Bytes)
    → IsComplete file
    → lines_from [] (file ++ line) ≡ lines_from [] file ++ lines_from [] line
unfolding lines_from
lines_from_complete file line (inl e) = rw (e, lines_from) refl
lines_from_complete file line (inr (front, e)) =
    rw (e, append_assoc front (b'\n' ∷ []) line) (lines_from-append [] front line)

keep-append :
    (r : Option PersistedFrame) (ps qs : List PersistedFrame) → keep r (ps ++ qs) ≡ keep r ps ++ qs
keep-append none ps qs = refl
keep-append (some r) ps qs = refl

some_inj : {A : Type 0} {a b : A} → some a ≡ some b → a ≡ b
some_inj e = cc

module _ (h : Host) where
  load_lines-append :
      (ls ms : List Bytes) {rs qs : List PersistedFrame}
      → load_lines h ls ≡ some rs
      → load_lines h ms ≡ some qs
      → load_lines h (ls ++ ms) ≡ some (rs ++ qs)
  unfolding load_lines
  load_lines-append [] ms a b = ground (arith)
  load_lines-append (l ∷ ls) ms {rs} {qs} a b =
      let (r, here, a1) = and_then-some (load_line h l) _ a in
      let (ps, there, a2) = and_then-some (load_lines h ls) _ a1 in
      some-and_then _ here (
        some-and_then _ (load_lines-append ls ms there b)
          (ap some (keep-append r ps qs) ∙ ap (λ l. some (l ++ qs)) (some_inj a2)))

  load_line-printed :
      (r : PersistedFrame) (line : Bytes)
      → IsRecord r
      → r.v ≡ record_version
      → IsPrinted h (record_to_value r) line
      → load_line h line ≡ some (some r)
  unfolding load_line
  load_line-printed r line k v p =
      ground (arith, p.is_text, p.nonempty, p.parses, record_of_value-to_value r k)

  -- A file whose last line is complete and that is read as `rs`: after a frame was appended it is read as
  -- `rs` and the record of that frame, and its last line is complete again; this if the frame can be read
  -- and its record is printed as one line of UTF-8 that reads back as the record.
  pub append-load :
      (file frame line : Bytes) (seq segment_id : ℕ) (recorded_at : String) (value : Value)
      (rs : List PersistedFrame)
      → IsComplete file
      → load_existing h (some file) ≡ some rs
      → h.from_slice frame ≡ some value
      → h.to_vec (record_to_value (record_of seq segment_id recorded_at value)) ≡ some line
      → seq ≤ u64_max
      → segment_id ≤ u64_max
      → IsPrinted h (record_to_value (record_of seq segment_id recorded_at value)) line
      → (after : Bytes) × (append h seq segment_id recorded_at frame file ≡ some after)
        × IsComplete after
        × (load_existing h (some after)
            ≡ some (rs ++ record_of seq segment_id recorded_at value ∷ []))
  unfolding append load_existing load_lines
  append-load file frame line seq segment_id recorded_at value rs c old parsed printed bs bt p = (
    file ++ line ++ b'\n' ∷ [],
    ground (arith, parsed, printed),
    inr (file ++ line, refl),
    ap (load_lines h) (
          ap (lines_from []) (append_assoc file line (b'\n' ∷ []))
          ∙ lines_from_complete file (line ++ b'\n' ∷ []) c
          ∙ ap (λ l. lines_from [] file ++ l) (lines_from-line [] line p.one_line))
        ∙ load_lines-append (lines_from [] file) (without_return line ∷ []) old (
            one (record_of seq segment_id recorded_at value) line
              (load_line-printed (record_of seq segment_id recorded_at value) line
                (record { version = omega arith; number = bs; tag = bt }) refl p)
              p.no_return),
  )
    where
      one :
          (r : PersistedFrame) (l : Bytes)
          → load_line h l ≡ some (some r)
          → pop_byte b'\r' l ≡ none
          → load_lines h (without_return l ∷ []) ≡ some (r ∷ [])
      one r l loads whole =
          ap (λ o. load_lines h (elim o [ none ↦ l | some front ↦ front ] ∷ [])) whole
          ∙ some-and_then _ loads refl
