-- ===== src/Server/RateLimit/Isolation.antt =====
-- The limiter of an address, on its own.
use gghstats.Base.{
  ℕ, ◌≤◌, ◌-◌, ltb, ◌&&◌, Bool, true, false, not, if◌then◌else◌, List, [], ◌∷◌, Option, none, some,
  count, keep, map, ◌≡◌, refl, sym, ap, subst, ◌∙◌, arith, Bool-cases, Option-cases, inl, inr,
}
use gghstats.Base.Text.{Text, text_eq, text_eq_iff, text_eq_refl}
use gghstats.Store.Table.{
  find_row, update_where, upserted, find_row-upsert_self, find_row-upsert_other,
  find_row-update_self,
}
use gghstats.Server.Proxies.{Net, Request, client_ip}
use gghstats.Server.Access.{MiddlewareSkip, Verdict, skip_matches}
use gghstats.Server.RateLimit.{
  Limiter, RateLimiterEntry, Event, arrival, tick, is_ip, touch, set_limiter, max_idle, is_idle,
  cleanup, verdict_of, get_or_create, bucket_at, rate_limit_middleware, limiters_after, serve_all,
}
use gghstats.Server.RateLimit.Table.{
  count-upsert_self, count-upsert_other, count-update, count-delete, find_row-delete,
  find_row-update_other,
}

apart : (a b : Text) → text_eq a b ≡ false → (c : Text) → text_eq c a ≡ true → text_eq c b ≡ false
apart a b h c e = let same = (text_eq_iff c a).0 e in rw same h

module _ {Ip Cidr Bucket : Type 0} (net : Net Ip Cidr) (trusted : Option (List Cidr))
    (rate : Limiter Bucket) (skip : MiddlewareSkip) where
  -- No address has two entries.
  abbrev pub HasOneEntryEach : List (RateLimiterEntry Bucket) → Type 0
  HasOneEntryEach limiters = (ip : Text) → count (is_ip ip) limiters ≤ 1

  abbrev new_entry : ℕ → Text → RateLimiterEntry Bucket
  new_entry now ip = record { ip = ip; limiter = rate.full; last_seen = now }

  -- The entries after a request that is not exempt.
  abbrev served_at : ℕ → Text → List (RateLimiterEntry Bucket) → List (RateLimiterEntry Bucket)
  served_at now at limiters =
      let present = get_or_create net trusted rate now at limiters in
      update_where (is_ip at)
        (set_limiter (rate.allow now (bucket_at net trusted rate at present)).1) present

  once-own :
      (now : ℕ) (ip : Text) (limiters : List (RateLimiterEntry Bucket))
      → HasOneEntryEach limiters
      → count (is_ip ip) (served_at now ip limiters) ≤ 1
  unfolding get_or_create is_ip touch set_limiter
  once-own now ip limiters once =
      let present = get_or_create net trusted rate now ip limiters in
      rw
        (count-update (is_ip ip) (is_ip ip)
          (set_limiter (rate.allow now (bucket_at net trusted rate ip present)).1) (λ r. refl)
          present)
        (count-upsert_self (is_ip ip) (touch now) _ (text_eq_refl ip) (λ r h. h) limiters (once ip))

  once-other :
      (now : ℕ) (at ip : Text) (limiters : List (RateLimiterEntry Bucket))
      → text_eq at ip ≡ false
      → HasOneEntryEach limiters
      → count (is_ip ip) (served_at now at limiters) ≤ 1
  unfolding get_or_create is_ip touch set_limiter
  once-other now at ip limiters e once =
      let present = get_or_create net trusted rate now at limiters in
      rw
        (
          count-update (is_ip ip) (is_ip at)
              (set_limiter (rate.allow now (bucket_at net trusted rate at present)).1) (λ r. refl)
              present,
          count-upsert_other (is_ip ip) (is_ip at) (touch now) (new_entry now at) e (λ r. refl)
              limiters,
        )
        (once ip)

  once-served :
      (now : ℕ) (at : Text) (limiters : List (RateLimiterEntry Bucket))
      → HasOneEntryEach limiters
      → HasOneEntryEach (served_at now at limiters)
  once-served now at limiters once ip = elim (Bool-cases (text_eq at ip)) [
    | inl e ↦
        let same = (text_eq_iff at ip).0 e in
        subst (λ a. count (is_ip ip) (served_at now a limiters) ≤ 1) (sym same)
          (once-own now ip limiters once)
    | inr e ↦ once-other now at ip limiters e once
  ]

  abbrev seen : Option (RateLimiterEntry Bucket) → Option (Bucket × ℕ)
  seen none = none
  seen (some e) = some (e.limiter, e.last_seen)

  -- What the limiter knows of an address: the bucket and the time of the last request.
  unfoldable pub account : Text → List (RateLimiterEntry Bucket) → Option (Bucket × ℕ)
  account ip limiters = seen (find_row (is_ip ip) limiters)

  abbrev pub bucket_of : Option (Bucket × ℕ) → Bucket
  bucket_of none = rate.full
  bucket_of (some (b, seen)) = b

  account-own :
      (now : ℕ) (ip : Text) (limiters : List (RateLimiterEntry Bucket))
      → (bucket_at net trusted rate ip (get_or_create net trusted rate now ip limiters)
          ≡ bucket_of (account ip limiters))
        × (account ip (served_at now ip limiters)
            ≡ some ((rate.allow now (bucket_of (account ip limiters))).1, now))
  unfolding account get_or_create bucket_at is_ip touch set_limiter
  account-own now ip limiters =
      let present = get_or_create net trusted rate now ip limiters in
      let up : find_row (is_ip ip) present
          ≡ some (upserted (touch now) (new_entry now ip) (find_row (is_ip ip) limiters)) =
        find_row-upsert_self (is_ip ip) (touch now) (new_entry now ip) (text_eq_refl ip) (λ r h. h)
          limiters in
      let set =
        find_row-update_self (is_ip ip)
          (set_limiter (rate.allow now (bucket_at net trusted rate ip present)).1) (λ r. refl)
          present in
      elim (Option-cases (find_row (is_ip ip) limiters)) [
        | inl e ↦ ground (arith, e, up, set)
        | inr (row, e) ↦ ground (arith, e, up, set)
      ]

  account-at :
      (now : ℕ) (at ip : Text) (limiters : List (RateLimiterEntry Bucket))
      → at ≡ ip
      → (bucket_at net trusted rate at (get_or_create net trusted rate now at limiters)
          ≡ bucket_of (account ip limiters))
        × (account ip (served_at now at limiters)
            ≡ some ((rate.allow now (bucket_of (account ip limiters))).1, now))
  account-at now at ip limiters same = rw same (account-own now ip limiters)

  account-other :
      (now : ℕ) (at ip : Text) (limiters : List (RateLimiterEntry Bucket))
      → text_eq at ip ≡ false
      → account ip (served_at now at limiters) ≡ account ip limiters
  unfolding account get_or_create is_ip touch set_limiter
  account-other now at ip limiters e =
      let present = get_or_create net trusted rate now at limiters in
      let b = (rate.allow now (bucket_at net trusted rate at present)).1 in
      let new =
        find_row-upsert_other (is_ip ip) (is_ip at) (touch now) (new_entry now at) e
          (λ r h. apart at ip e r.ip h) (λ r h. apart at ip e r.ip h) limiters in
      let set =
        find_row-update_other (is_ip ip) (is_ip at) (set_limiter b) (λ r h. apart at ip e r.ip h)
          (λ r. refl) present in
      ap seen (set ∙ new)

  -- What `cleanup` leaves of an account.
  unfoldable pub forget : ℕ → Option (Bucket × ℕ) → Option (Bucket × ℕ)
  forget now none = none
  forget now (some (b, last)) = if ltb max_idle (now - last) then none else some (b, last)

  account-cleanup :
      (now : ℕ) (ip : Text) (limiters : List (RateLimiterEntry Bucket))
      → count (is_ip ip) limiters ≤ 1
      → account ip (cleanup now limiters) ≡ forget now (account ip limiters)
  unfolding account forget cleanup is_idle
  account-cleanup now ip limiters once =
      let left = find_row-delete (is_ip ip) (is_idle now) limiters once in
      elim (Option-cases (find_row (is_ip ip) limiters)) [
        | inl e ↦ ground (arith, e, left)
        | inr (row, e) ↦ ground (arith, e, left)
      ]

  -- The request is not exempt and comes from the address.
  abbrev pub counts_for : Text → Request → Bool
  counts_for ip r = not (skip_matches skip r.path) && text_eq (client_ip net trusted r) ip

  -- The verdicts on the requests of one address, from its own bucket alone.
  unfoldable pub own_verdicts : Text → List Event → Option (Bucket × ℕ) → List Verdict
  own_verdicts ip [] known = []
  own_verdicts ip (arrival now r ∷ events) known =
      let asked = rate.allow now (bucket_of known) in
      let counted = own_verdicts ip events (some (asked.1, now)) in
      let uncounted = own_verdicts ip events known in
      if counts_for ip r then verdict_of asked.0 ∷ counted else uncounted
  own_verdicts ip (tick now ∷ events) known = own_verdicts ip events (forget now known)

  -- The verdicts of the log on the requests that count for an address.
  abbrev pub verdicts_of : Text → List (Request × Verdict) → List Verdict
  verdicts_of ip log =
      map (λ (p : Request × Verdict). p.1) (keep (λ (p : Request × Verdict). counts_for ip p.0) log)

  -- The list of entries stays a map: it has at most one entry for an address.
  limiters_after-HasOneEntryEach :
      (events : List Event) (limiters : List (RateLimiterEntry Bucket))
      → HasOneEntryEach limiters
      → HasOneEntryEach (limiters_after net trusted rate skip events limiters)
  unfolding limiters_after rate_limit_middleware cleanup
  limiters_after-HasOneEntryEach [] limiters once = once
  limiters_after-HasOneEntryEach (tick now ∷ events) limiters once =
      limiters_after-HasOneEntryEach events (cleanup now limiters) (λ ip.
        let fewer = count-delete (is_ip ip) (is_idle now) limiters in
        let had = once ip in omega arith)
  limiters_after-HasOneEntryEach (arrival now r ∷ events) limiters once =
      elim (Bool-cases (skip_matches skip r.path)) [
        | inl e ↦ rw e (limiters_after-HasOneEntryEach events limiters once)
        | inr e ↦
            let at = client_ip net trusted r in
            rw e (
              limiters_after-HasOneEntryEach events (served_at now at limiters)
                (once-served now at limiters once))
      ]

  -- In any mix of requests and clean-ups, the verdicts on the requests of an address are those of
  -- its own bucket on its own requests: what others send changes none of them.
  pub serve_all-own_verdicts :
      (ip : Text) (events : List Event) (limiters : List (RateLimiterEntry Bucket))
      → HasOneEntryEach limiters
      → verdicts_of ip (serve_all net trusted rate skip events limiters)
        ≡ own_verdicts ip events (account ip limiters)
  unfolding serve_all own_verdicts rate_limit_middleware limiters_after
  serve_all-own_verdicts ip [] limiters once = refl
  serve_all-own_verdicts ip (tick now ∷ events) limiters once =
      let after : HasOneEntryEach (cleanup now limiters) =
        limiters_after-HasOneEntryEach (tick now ∷ []) limiters once in
      serve_all-own_verdicts ip events (cleanup now limiters) after
      ∙ ap (own_verdicts ip events) (account-cleanup now ip limiters (once ip))
  serve_all-own_verdicts ip (arrival now r ∷ events) limiters once =
      let at = client_ip net trusted r in
      let ih =
        serve_all-own_verdicts ip events (served_at now at limiters)
          (once-served now at limiters once) in
      elim (Bool-cases (skip_matches skip r.path)) [
        | inl e ↦ rw e (serve_all-own_verdicts ip events limiters once)
        | inr e ↦ elim (Bool-cases (text_eq at ip)) [
          | inl o ↦
              let (bucket, after) = account-at now at ip limiters ((text_eq_iff at ip).0 o) in
              rw (e, o)
                (ap
                    (λ b.
                      verdict_of (rate.allow now b).0
                      ∷ verdicts_of ip
                          (serve_all net trusted rate skip events (served_at now at limiters)))
                    bucket
                  ∙ ap (λ vs. verdict_of (rate.allow now (bucket_of (account ip limiters))).0 ∷ vs)
                      (ih ∙ ap (own_verdicts ip events) after))
          | inr o ↦
              rw (e, o) (ih ∙ ap (own_verdicts ip events) (account-other now at ip limiters o))
        ]
      ]
