-- ===== src/Server/Queries.antt =====
-- crates/acp-mux/src/server.rs: the attach queries that `validate` accepts.
use acp_mux.Base.{
  ℕ, ◌≤◌, ◌≡◌, refl, ap, ◌∙◌, subst, String, Bool, true, false, not, ◌&&◌, [], ◌∷◌, Option, none,
  some, leb, length, eq_nat, eq_text, ◌↔◌, ◌⊎◌, inl, arith, All,
}
use acp_mux.Host.{Host, Bytes, is_empty}
use acp_mux.Jsonrpc.{Result, ok, err}
use acp_mux.Server.{
  AttachQuery, ValidatedAttach, validate, is_valid_mux_id, is_id_byte, all, skip_of, check, ok_or,
  ◌>>=◌,
}

-- A digit, a letter, an underscore or a dash.
abbrev pub IsIdByte : ℕ → Type 0
IsIdByte b =
    ((b'0' ≤ b) × (b ≤ b'9'))
    ⊎ ((b'A' ≤ b) × (b ≤ b'Z'))
    ⊎ ((b'a' ≤ b) × (b ≤ b'z'))
    ⊎ (b ≡ b'_')
    ⊎ (b ≡ b'-')

abbrev pub IsId : Bytes → Type 0
IsId bytes = (1 ≤ length bytes) × (length bytes ≤ 128) × All IsIdByte bytes

abbrev pub Skips : Option String → Bool → Type 0
Skips replay skip = ((replay ≡ none) × (skip ≡ false)) ⊎ ((replay ≡ some "skip") × (skip ≡ true))

-- What a valid query asks for.
pub record Asks (h : Host) (q : AttachQuery) (v : ValidatedAttach) : Type 0 where
  pub mux : q.mux ≡ some v.mux
  pub mux_id : IsId (h.as_bytes v.mux)
  pub peer : q.peer_id ≡ some v.peer_id
  pub named : 1 ≤ length (h.as_bytes v.peer_id)
  pub peer_name : q.peer_name ≡ v.peer_name
  pub role : q.role ≡ v.role
  pub replay : Skips q.replay v.skip_legacy_replay

is_id_byte_iff : (b : ℕ) → (is_id_byte b ≡ true) ↔ IsIdByte b
is_id_byte_iff b = ((λ e. ground arith), (λ k. ground arith))

and_true : (a b : Bool) → a && b ≡ true → (a ≡ true) × (b ≡ true)
and_true true b e = (refl, e)
and_true false b e = cc

true_and : {a b : Bool} → a ≡ true → b ≡ true → a && b ≡ true
true_and p q = rw p q

all_iff : (bs : Bytes) → (all is_id_byte bs ≡ true) ↔ All IsIdByte bs
all_iff [] = ((λ e. tt), (λ u. refl))
all_iff (b ∷ bs) = (
  (λ e.
      let (here, later) = and_true (is_id_byte b) (all is_id_byte bs) e in
      ((is_id_byte_iff b).0 here, (all_iff bs).0 later)),
  (λ k. true_and ((is_id_byte_iff b).1 k.0) ((all_iff bs).1 k.1)),
)

nonempty_iff : (bs : Bytes) → (not (is_empty bs) ≡ true) ↔ (1 ≤ length bs)
nonempty_iff [] = ((λ e. cc), (λ l. absurd (omega arith)))
nonempty_iff (b ∷ bs) = ((λ e. omega arith), (λ l. refl))

leb_iff : (m n : ℕ) → (leb m n ≡ true) ↔ (m ≤ n)
leb_iff m n = ((λ e. ground arith), (λ l. ground arith))

pub is_valid_mux_id_iff :
    (h : Host) (s : String) → (is_valid_mux_id h s ≡ true) ↔ IsId (h.as_bytes s)
unfolding is_valid_mux_id
is_valid_mux_id_iff h s =
    let bs = h.as_bytes s in
    (
      (λ e.
          let (a, c) = and_true (not (is_empty bs) && leb (length bs) 128) (all is_id_byte bs) e in
          let (b, d) = and_true (not (is_empty bs)) (leb (length bs) 128) a in
          ((nonempty_iff bs).0 b, (leb_iff (length bs) 128).0 d, (all_iff bs).0 c)),
      (λ k.
          true_and (true_and ((nonempty_iff bs).1 k.0) ((leb_iff (length bs) 128).1 k.1))
            ((all_iff bs).1 k.2)),
    )

-- A chain that succeeds, taken apart and put together.
>>=-ok {ℓ κ} :
    {A : Type ℓ} {B : Type κ} (m : Result String A) (f : A → Result String B) {b : B}
    → (m >>= f) ≡ ok b
    → (a : A) × (m ≡ ok a) × (f a ≡ ok b)
>>=-ok (ok a) f e = (a, refl, e)
>>=-ok (err r) f e = cc

>>=-intro {ℓ κ} :
    {A : Type ℓ} {B : Type κ} {m : Result String A} (f : A → Result String B) {a : A} {b : B}
    → m ≡ ok a
    → f a ≡ ok b
    → (m >>= f) ≡ ok b
>>=-intro f e k = rw e k

ok_or_iff : (o : Option String) (r a : String) → (ok_or o r ≡ ok a) ↔ (o ≡ some a)
ok_or_iff none r a = ((λ e. cc), (λ e. cc))
ok_or_iff (some b) r a = ((λ e. cc), (λ e. cc))

check_iff : (b : Bool) (r : String) → (check b r ≡ ok tt) ↔ (b ≡ true)
check_iff true r = ((λ e. refl), (λ e. refl))
check_iff false r = ((λ e. cc), (λ e. cc))

skip_of_iff : (o : Option String) (b : Bool) → (skip_of o ≡ ok b) ↔ Skips o b
skip_of_iff none b = ((λ e. inl (refl, cc)), (λ k. ground arith))
skip_of_iff (some s) b = (
  (λ e. ground (arith, eq_text.alike_iff s "skip")),
  (λ k. ground (arith, eq_text.alike_iff s "skip")),
)

module _ (h : Host) (q : AttachQuery) where
  assembled : String → String → Bool → ValidatedAttach
  assembled m p b = record {
    mux = m;
    peer_id = p;
    peer_name = q.peer_name;
    role = q.role;
    skip_legacy_replay = b;
  }

  Asks-assembled :
      (m p : String) (b : Bool)
      → q.mux ≡ some m
      → is_valid_mux_id h m ≡ true
      → q.peer_id ≡ some p
      → not (is_empty (h.as_bytes p)) ≡ true
      → Skips q.replay b
      → Asks h q (assembled m p b)
  unfolding assembled
  Asks-assembled m p b em vm ep np s = record {
    mux = em;
    mux_id = (is_valid_mux_id_iff h m).0 vm;
    peer = ep;
    named = (nonempty_iff (h.as_bytes p)).0 np;
    peer_name = refl;
    role = refl;
    replay = s;
  }

  accepted-Asks : (v : ValidatedAttach) → validate h q ≡ ok v → Asks h q v
  unfolding validate assembled
  accepted-Asks v e =
      let (m, em, e1) = >>=-ok (ok_or q.mux "missing ?mux") _ e in
      let (u, vm, e2) =
        >>=-ok (check (is_valid_mux_id h m) "invalid ?mux (expect ^[A-Za-z0-9_-]{1,128}$)") _ e1 in
      let (p, ep, e3) = >>=-ok (ok_or q.peer_id "missing ?peer_id") _ e2 in
      let (t, np, e4) = >>=-ok (check (not (is_empty (h.as_bytes p))) "empty ?peer_id") _ e3 in
      let (b, eb, e5) = >>=-ok (skip_of q.replay) _ e4 in
      subst (Asks h q) (ok_inj e5) (
        Asks-assembled m p b ((ok_or_iff q.mux _ m).0 em) ((check_iff _ _).0 vm)
          ((ok_or_iff q.peer_id _ p).0 ep) ((check_iff _ _).0 np) ((skip_of_iff q.replay b).0 eb))
    where
      ok_inj :
          {a b : ValidatedAttach} → ◌≡◌ {A = Result String ValidatedAttach} (ok a) (ok b) → a ≡ b
      ok_inj k = cc

  Asks-accepted : (v : ValidatedAttach) → Asks h q v → validate h q ≡ ok v
  unfolding validate
  Asks-accepted v k = >>=-intro _ ((ok_or_iff q.mux _ v.mux).1 k.mux) (
      >>=-intro _ ((check_iff _ _).1 ((is_valid_mux_id_iff h v.mux).1 k.mux_id)) (
        >>=-intro _ ((ok_or_iff q.peer_id _ v.peer_id).1 k.peer) (
          >>=-intro _ ((check_iff _ _).1 ((nonempty_iff (h.as_bytes v.peer_id)).1 k.named)) (
            >>=-intro _ ((skip_of_iff q.replay v.skip_legacy_replay).1 k.replay) (
              ap (λ n. ok (record v { peer_name = n; role = q.role })) k.peer_name
              ∙ ap (λ r. ok (record v { role = r })) k.role)))))

  -- A query is accepted, and as which one, exactly if it asks for it: for a mux id of 1 to 128 digits,
  -- letters, underscores and dashes and for a peer id that is not empty, with replay=skip or no replay.
  pub validate_iff : (v : ValidatedAttach) → (validate h q ≡ ok v) ↔ Asks h q v
  validate_iff v = (accepted-Asks v, Asks-accepted v)
