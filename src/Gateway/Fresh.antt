-- ===== src/Gateway/Fresh.antt =====
-- crates/obsign-proxy/src/auth.rs: an act is taken only under a delegation that is in force.
use obsign.Prelude.{
  ◌≡◌, ◌≢◌, refl, sym, ℕ, ℤ, Bytes, Bool, true, false, not, Option, none, some, Fallible, ok, err,
  if◌then◌else◌,
}
use obsign.Audit.Checkpoint.{next_u64}
use obsign.Gateway.Identity.{Delegation, is_expired, delegation_eq}
use obsign.Gateway.Identity.Equal.{delegation_eq_iff}
use obsign.Gateway.Auth.{
  Provider, Auth, verify_token, read_and_verify, take_reloads, adopt, refreshed, with_source,
  refresh_from, refresh, accepted, present_to, is_presented, present, denied_on_disk, denied_same,
}
use obsign.Gateway.Agent.{authority_of, authenticate}

module _ ⦃p : Provider⦄ where
  -- What `renewed` says of the delegations before and after.
  abbrev pub Reported : Bool → Delegation → Delegation → Type 0
  Reported true before after = before ≢ after
  Reported false before after = before ≡ after

  -- The delegation after a success is not expired, and is reported as renewed where it is another one,
  -- which starts a generation.
  abbrev pub InForce : ℤ → ℕ → Delegation → Auth × Fallible Bytes Bool → Type 0
  InForce now generation before (a, ok renewed) =
      (is_expired a.current now ≡ false)
      × (a.generation ≡ (if renewed then next_u64 generation else generation))
      × Reported renewed before a.current
  InForce now generation before (a, err why) = Unit

  is_other : {b : Bool} → b ≡ false → b ≡ true → ⊥
  is_other e f = absurd cc

  adopt-InForce :
      (now : ℤ) (a : Auth) (fresh : Delegation)
      → is_expired fresh now ≡ false
      → InForce now a.generation a.current (adopt a fresh)
  unfolding adopt
  adopt-InForce now a fresh valid = choose (delegation_eq fresh a.current) refl
    where
      choose :
          (same : Bool)
          → delegation_eq fresh a.current ≡ same
          → InForce now a.generation a.current (
              if same
              then (record a { current = fresh }, ok false)
              else (record a { current = fresh; generation = next_u64 a.generation }, ok true))
      choose true e = (valid, refl, sym ((delegation_eq_iff fresh a.current).0 e))
      choose false e =
          (valid, refl, λ same. is_other e ((delegation_eq_iff fresh a.current).1 (sym same)))

  -- Where a fresh delegation is expired, the answer is an error.
  checked-InForce :
      (now : ℤ) (a b : Auth) (fresh : Delegation) (why : Bytes) (expired : Bool)
      → is_expired fresh now ≡ expired
      → InForce now a.generation a.current (if not expired then adopt a fresh else (b, err why))
  checked-InForce now a b fresh why true e = tt
  checked-InForce now a b fresh why false e = adopt-InForce now a fresh e

  refreshed-InForce :
      (now : ℤ) (a : Auth) (r : Fallible Bytes Delegation)
      → InForce now a.generation a.current (refreshed a now r)
  refreshed-InForce now a (ok fresh) =
      checked-InForce now a a fresh (denied_on_disk a.current now) (is_expired fresh now) refl
  refreshed-InForce now a (err e) = tt

  refresh_from-InForce :
      (now : ℤ) (a : Auth) (source : Option p.Source) (path : Option Bytes)
      → InForce now a.generation a.current (refresh_from a now source path)
  refresh_from-InForce now a (some source) (some path) =
      let (left, r) = read_and_verify source path now now a.reloads in
      refreshed-InForce now (with_source a left) r
  refresh_from-InForce now a (some source) none = tt
  refresh_from-InForce now a none path = tt

  refresh-InForce : (now : ℤ) (a : Auth) → InForce now a.generation a.current (refresh a now)
  unfolding refresh
  refresh-InForce now a = choose (is_expired a.current now) refl
    where
      choose :
          (expired : Bool)
          → is_expired a.current now ≡ expired
          → InForce now a.generation a.current
              (if not expired then (a, ok false) else refresh_from a now a.source a.token_path)
      choose false e = (e, refl, refl)
      choose true e = refresh_from-InForce now a a.source a.token_path

  accepted-InForce :
      (now : ℤ) (a : Auth) (token : Bytes) (r : Fallible Bytes Delegation)
      → InForce now a.generation a.current (accepted a token now r)
  accepted-InForce now a token (ok fresh) =
      checked-InForce now (record a { presented = some token }) a fresh _ (is_expired fresh now)
        refl
  accepted-InForce now a token (err e) = tt

  present_to-InForce :
      (now : ℤ) (a : Auth) (token : Bytes) (source : Option p.Source)
      → InForce now a.generation a.current (present_to a token now source)
  present_to-InForce now a token none = refresh-InForce now a
  present_to-InForce now a token (some source) =
      let (left, r) = verify_token source token now now a.reloads in
      accepted-InForce now (with_source a left) token r

  present-InForce :
      (now : ℤ) (a : Auth) (token : Bytes)
      → InForce now a.generation a.current (present a token now)
  unfolding present
  present-InForce now a token =
      choose (is_presented a.presented token) (is_expired a.current now) refl
    where
      choose :
          (known expired : Bool)
          → is_expired a.current now ≡ expired
          → InForce now a.generation a.current (
              if known
              then if expired then (a, err (denied_same a.current now)) else (a, ok false)
              else present_to a token now a.source)
      choose true true e = tt
      choose true false e = (e, refl, refl)
      choose false expired e = present_to-InForce now a token a.source

  authority-InForce :
      (now : ℤ) (generation : ℕ) (before : Delegation) (r : Auth × Fallible Bytes Bool)
      → InForce now generation before r
      → (authority_of r).1.auth_error ≡ none
      → (is_expired (authority_of r).1.deleg now ≡ false)
        × ((authority_of r).1.generation
            ≡ (if (authority_of r).1.renewed then next_u64 generation else generation))
        × Reported (authority_of r).1.renewed before (authority_of r).1.deleg
  unfolding take_reloads
  authority-InForce now generation before (a, ok renewed) f e = f
  authority-InForce now generation before (a, err why) f e = absurd cc

  -- If the identity of an act is accepted, from a token that is presented or without one, then the
  -- delegation that the act is decided under is not expired at that time, and it is reported as
  -- renewed exactly where it differs from the one before in any of its fields; its generation is then
  -- the next one, modulo 2^64, and else the same.
  pub authenticate_sound :
      (a : Auth) (bearer : Option Bytes) (now : ℤ)
      → (authenticate a bearer now).1.auth_error ≡ none
      → (is_expired (authenticate a bearer now).1.deleg now ≡ false)
        × ((authenticate a bearer now).1.generation ≡ (
            if (authenticate a bearer now).1.renewed then next_u64 a.generation else a.generation))
        × Reported
            (authenticate a bearer now).1.renewed
            a.current
            (authenticate a bearer now).1.deleg
  unfolding authenticate
  authenticate_sound a none now e =
      authority-InForce now a.generation a.current (refresh a now) (refresh-InForce now a) e
  authenticate_sound a (some token) now e =
      authority-InForce now a.generation a.current (present a token now)
        (present-InForce now a token) e
