-- ===== src/RateLimit/Context/Softer.antt =====
-- One call of `RateLimitContext::check_with_cost` in the enforce mode and in the shadow mode.
use mathlib.Core.Option
use mathlib.Core.Path.{subst}
use summerrs_admin.Base.{
  ℕ, ◌≡◌, refl, ap, sym, ◌∙◌, max, Bool, true, false, Option, none, some, List, [], ◌∷◌, Bool-cases,
  inl, inr, not, ◌&&◌, any,
}
use summerrs_admin.Base.Text.{Bytes}
use summerrs_admin.RateLimit.Config.{RateLimitConfig, enforce, shadow}
use summerrs_admin.RateLimit.Decision.{
  RateLimitMetadata, RateLimitDecision, allowed, delayed, rejected, backend_unavailable, metadata,
  fetch_add, record_meta,
}
use summerrs_admin.RateLimit.Platform.{Platform, Moment}
use summerrs_admin.RateLimit.Engine.{RateLimitEngine, check_with_cost, check_lists, is_nil}
use summerrs_admin.RateLimit.Engine.Accounting.{check_with_cost-Counts}
use summerrs_admin.RateLimit.Engine.Unread.{in_mode, check_with_cost-mode}
use summerrs_admin.RateLimit.Engine.Passes.{
  with_passes, with_passes_behind, check_with_cost-passes, Keeps, check_with_cost-Keeps,
}
use summerrs_admin.RateLimit.Context.{
  too_many_requests, ApiResult, ok, err, Shared, Answer, finalize, after_check, after_lists,
  checked,
}

-- A 429.
abbrev pub is_refusal : ApiResult RateLimitMetadata → Bool
is_refusal (err (too_many_requests message)) = true
is_refusal _ = false

module _ (M : Platform) where
  -- The arguments of one call of `RateLimitContext::check_with_cost`.
  pub record Visit : Type 0 where
    pub ip : M.IpAddr
    pub key : Bytes
    pub config : RateLimitConfig
    pub cost : ℕ
    pub message : Bytes
    pub moment : Moment

  -- The same state but for the number of shadow passes.
  abbrev pub raised : ℕ → Shared M → Shared M
  raised p s = record s { engine = with_passes M p s.engine }

  -- The address lies in one of the networks.
  abbrev pub blocked_by : List M.IpNetwork → M.IpAddr → Bool
  blocked_by nets ip = any (λ net. M.in_network net ip) nets

  -- One answer, and the state behind it.
  pub data Softer (blocks : List M.IpNetwork) (v : Visit) (p : ℕ)
      : Answer M RateLimitMetadata → Answer M RateLimitMetadata → Type 0 where
    went_on :
        (a : ApiResult RateLimitMetadata) (s : Shared M)
        → is_refusal a ≡ false
        → s.engine.blocklist ≡ blocks
        → Softer blocks v p (a, s) (a, raised p s)
    kept_out :
        (s : Shared M)
        → blocked_by blocks v.ip ≡ true
        → s.engine.blocklist ≡ blocks
        → Softer blocks v p
            (err (too_many_requests v.message), s)
            (err (too_many_requests v.message), raised p s)
    let_through :
        (meta : RateLimitMetadata) (s : Shared M)
        → blocked_by blocks v.ip ≡ false
        → s.engine.blocklist ≡ blocks
        → Softer blocks v p
            (err (too_many_requests v.message), s)
            (ok meta, raised (fetch_add p 1) s)

  after_check-Softer :
      (v : Visit) (p cost : ℕ) (blocks : List M.IpNetwork) (holder : Option RateLimitMetadata)
      (d : RateLimitDecision) (e : RateLimitEngine M)
      → blocked_by blocks v.ip ≡ false
      → e.blocklist ≡ blocks
      → Softer blocks v p
          (after_check M cost (in_mode enforce v.config) v.message holder (d, e))
          (after_check M cost (in_mode shadow v.config) v.message holder (d, with_passes M p e))
  unfolding finalize metadata record_meta
  after_check-Softer v p cost blocks holder (allowed meta) e free kept = went_on _ _ refl kept
  after_check-Softer v p cost blocks holder (delayed w meta) e free kept = went_on _ _ refl kept
  after_check-Softer v p cost blocks holder (rejected meta) e free kept = let_through _ _ free kept
  after_check-Softer v p cost blocks holder backend_unavailable e free kept = went_on _ _ refl kept

  guarded :
      (nets : List M.IpNetwork) (ip : M.IpAddr)
      → (not (is_nil M nets) && blocked_by nets ip) ≡ blocked_by nets ip
  guarded [] ip = refl
  guarded (n ∷ nets) ip = refl

  -- What the lists answer, at the engine and at that with another counter.
  data Listed (ip : M.IpAddr) (p : ℕ) (e : RateLimitEngine M)
      : Option RateLimitDecision × RateLimitEngine M
        → Option RateLimitDecision × RateLimitEngine M
        → Type 0 where
    let_in :
        (meta : RateLimitMetadata) (e' : RateLimitEngine M)
        → e'.blocklist ≡ e.blocklist
        → Listed ip p e (some (allowed meta), e') (some (allowed meta), with_passes M p e')
    locked_out :
        (meta : RateLimitMetadata) (e' : RateLimitEngine M)
        → blocked_by e.blocklist ip ≡ true
        → e'.blocklist ≡ e.blocklist
        → Listed ip p e (some (rejected meta), e') (some (rejected meta), with_passes M p e')
    on_neither :
        blocked_by e.blocklist ip ≡ false → Listed ip p e (none, e) (none, with_passes M p e)

  check_lists-Listed :
      (ip : M.IpAddr) (p : ℕ) (e : RateLimitEngine M)
      → Listed ip p e (check_lists M ip e) (check_lists M ip (with_passes M p e))
  unfolding check_lists
  check_lists-Listed ip p e =
      elim (Bool-cases (not (is_nil M e.allowlist) && blocked_by e.allowlist ip)) [
        | inl passes ↦ rw passes (let_in _ _ refl)
        | inr off ↦
            rw off (elim (Bool-cases (not (is_nil M e.blocklist) && blocked_by e.blocklist ip)) [
              | inl blocks ↦ rw blocks (locked_out _ _ (sym (guarded e.blocklist ip) ∙ blocks) refl)
              | inr free ↦ rw free (on_neither (sym (guarded e.blocklist ip) ∙ free))
            ])
      ]

  -- One visit in the two modes.
  abbrev pub Answers :
      List M.IpNetwork
      → Visit
      → ℕ
      → Option (Answer M RateLimitMetadata)
      → Option (Answer M RateLimitMetadata)
      → Type 0
  Answers blocks v p o o' =
      (x : Answer M RateLimitMetadata) × (y : Answer M RateLimitMetadata) × (o ≡ some x)
      × (o' ≡ some y)
      × Softer blocks v p x y

  kept_by :
      (key : Bytes) (c : RateLimitConfig) (cost : ℕ) (t : Moment) (e e' : RateLimitEngine M)
      (d : RateLimitDecision)
      → check_with_cost M key c cost t e ≡ some (d, e')
      → e'.blocklist ≡ e.blocklist
  kept_by key c cost t e e' d run =
      subst (Keeps M e.blocklist) run (check_with_cost-Keeps M key c cost t e)

  pub checked-Answers :
      (v : Visit) (p : ℕ) (s : Shared M)
      → Answers s.engine.blocklist v p
          (checked M v.ip v.key (in_mode enforce v.config) v.cost v.message v.moment s)
          (checked M v.ip v.key (in_mode shadow v.config) v.cost v.message v.moment (raised p s))
  unfolding checked metadata record_meta
  checked-Answers v p s = by_lists (check_lists-Listed v.ip p s.engine)
    where
      by_lists :
          {r r' : Option RateLimitDecision × RateLimitEngine M}
          → Listed v.ip p s.engine r r'
          → Answers s.engine.blocklist v p
              (after_lists M r v.key (in_mode enforce v.config) v.cost v.message v.moment s.holder)
              (after_lists M r' v.key (in_mode shadow v.config) v.cost v.message v.moment s.holder)
      by_lists (let_in meta e' kept) = (_, _, refl, refl, went_on _ _ refl kept)
      by_lists (locked_out meta e' blocks kept) = (_, _, refl, refl, kept_out _ blocks kept)
      by_lists (on_neither free) =
          let cost = max v.cost 1 in
          let e = s.engine in
          let (d, e', run, counted) = check_with_cost-Counts M v.key v.config cost v.moment e in
          (
            _,
            _,
            ap (Option.map (after_check M cost (in_mode enforce v.config) v.message s.holder))
                (check_with_cost-mode M enforce v.key v.config cost v.moment e ∙ run),
            ap (Option.map (after_check M cost (in_mode shadow v.config) v.message s.holder)) (
                check_with_cost-mode M shadow v.key v.config cost v.moment (with_passes M p e)
                ∙ check_with_cost-passes M p v.key v.config cost v.moment e
                ∙ ap (Option.map (with_passes_behind M p)) run),
            after_check-Softer v p cost e.blocklist s.holder d e' free
                (kept_by v.key v.config cost v.moment e e' d run),
          )
