-- ===== src/Audit/Chain/Links.antt =====
-- What links the records of a chain, and that a writer and a sealer agree on it.
use obsign.Prelude.{
  >>-eq-ok, ok, ℕ, ◌≡◌, refl, sym, ◌∙◌, Option, some, List, [], ◌∷◌, ◌++◌, map, append-nil,
  append_assoc, arith, bytes_eq_iff, ==_iff,
}
use obsign.Crypto.{Crypto}
use obsign.Audit.Hash.{Hash}
use obsign.Audit.Record.{Record, record_hash}
use obsign.Audit.Checkpoint.{next_u64, check_link, collect_leaves}
use obsign.Audit.Chain.{ChainWriter, Draft, append, append_all}

module _ ⦃c : Crypto⦄ where
  -- The records stand at consecutive positions from `seq`, the first after a record of hash `prev`.
  abbrev pub Linked : ℕ → Hash → List Record → Type 0
  Linked seq prev [] = Unit
  Linked seq prev (r ∷ rs) =
      (r.seq ≡ seq) × (r.prev_hash ≡ prev) × Linked (next_u64 r.seq) (record_hash r) rs

  -- The position and the hash of the last record, or those given.
  abbrev pub last_link : ℕ → Hash → List Record → ℕ × Hash
  last_link seq h [] = (seq, h)
  last_link seq h (r ∷ rs) = last_link r.seq (record_hash r) rs

  -- The records that a run of appends returns are linked: the first stands at the writer's position
  -- and on its head, and each other one at the next position and on the hash of the record before.
  pub append_all-Linked :
      (w : ChainWriter) (ds : List Draft) → Linked w.next_seq w.head (append_all w ds).1
  unfolding append_all
  append_all-Linked w [] = tt
  append_all-Linked w (d ∷ ds) = (refl, refl, append_all-Linked (append w d).0 ds)

  pub pending-append_all :
      (w : ChainWriter) (ds : List Draft)
      → (append_all w ds).0.pending ≡ w.pending ++ map record_hash (append_all w ds).1
  unfolding append_all
  pending-append_all w [] = sym (append-nil w.pending)
  pending-append_all w (d ∷ ds) = pending-append_all (append w d).0 ds ∙ append_assoc w.pending _ _

  check_link_complete :
      (seq : ℕ) (h : Hash) (r : Record)
      → r.seq ≡ next_u64 seq
      → r.prev_hash ≡ h
      → check_link (some (seq, h)) r ≡ ok tt
  unfolding check_link
  check_link_complete seq h r e p =
      rw ((==_iff r.seq (next_u64 seq)).1 e, (bytes_eq_iff r.prev_hash h).1 p)

  check_link_sound :
      (seq : ℕ) (h : Hash) (r : Record)
      → check_link (some (seq, h)) r ≡ ok tt
      → (r.seq ≡ next_u64 seq) × (r.prev_hash ≡ h)
  unfolding check_link
  check_link_sound seq h r e = ground (arith, bytes_eq_iff r.prev_hash h)

  -- The loop of `seal_interval` accepts exactly the linked records, and collects their hashes.
  pub collect_leaves-Linked :
      (leaves : List Hash) (seq : ℕ) (h : Hash) (rs : List Record)
      → Linked (next_u64 seq) h rs
      → collect_leaves leaves (some (seq, h)) rs
        ≡ ok (leaves ++ map record_hash rs, some (last_link seq h rs))
  unfolding collect_leaves
  collect_leaves-Linked leaves seq h [] l = rw append-nil
  collect_leaves-Linked leaves seq h (r ∷ rs) l = rw (check_link_complete seq h r l.0 l.1) (
      collect_leaves-Linked (leaves ++ record_hash r ∷ []) r.seq (record_hash r) rs l.2
      ∙ rw append_assoc)

  pub collect_leaves_sound :
      (leaves : List Hash) (seq : ℕ) (h : Hash) (rs : List Record)
      {out : List Hash × Option (ℕ × Hash)}
      → collect_leaves leaves (some (seq, h)) rs ≡ ok out
      → Linked (next_u64 seq) h rs
  unfolding collect_leaves
  collect_leaves_sound leaves seq h [] e = tt
  collect_leaves_sound leaves seq h (r ∷ rs) e =
      let (accepted, rest) = >>-eq-ok (check_link (some (seq, h)) r) _ e in
      let links = check_link_sound seq h r accepted in
      (
        links.0,
        links.1,
        collect_leaves_sound (leaves ++ record_hash r ∷ []) r.seq (record_hash r) rs rest,
      )
