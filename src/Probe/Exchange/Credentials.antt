-- ===== src/Probe/Exchange/Credentials.antt =====
-- Backend/src/services/monitor.service.js, `probeOnce`: the requests of an attempt, their headers and
-- the redirects between them.
use devops_hackathon.Prelude.{
  ℕ, ◌+◌, ◌≤◌, ◌≡◌, refl, ◌⊎◌, inl, inr, true, Option, none, some, List, [], ◌∷◌, length, All,
  arith, sym, subst, ap, ◌∙◌, leb, ◌&&◌, Bool-cases, ltb, if◌then◌else◌,
}
use devops_hackathon.Probe.Attempt.{
  Platform, Parsed, Protocol, http_protocol, https_protocol, other_protocol, Options, Sent,
  Exchange, Event, deadline, failed, response, body_failed, body_ended, body_closed,
}
use devops_hackathon.Probe.Exchange.{
  Verdict, origin_of, same_origin, finish, fail, request, request_parsed, request_protocol, send,
  respond, respond_to, respond_located, follow, given, settle_with_status, end_body, handle, step,
  events, start, probe_once,
}
use Prim.Native.String.{String}
use text.Mathlib.TextEquality.{eq_iff}

module _ (p : Platform) (o : Options) where
  -- A request carries no credentials, or goes to the origin of the monitor's own URL.
  abbrev pub IsConfined : String → Sent → Type 0
  IsConfined raw q = (q.credentials ≡ []) ⊎ (origin_of p q.url ≡ origin_of p raw)

  pub record Inv (raw : String) (s : Exchange) : Type 0 where
    pub same_url : s.raw_url ≡ raw
    pub confined : All (IsConfined raw) s.sent
    pub redirected : s.redirects ≤ o.max_redirects
    pub requested : length s.sent ≤ s.redirects + 1

  same_origin-eq : (a b : Option String) → same_origin p a b ≡ true → a ≡ b
  same_origin-eq none none h = refl
  same_origin-eq (some a) (some b) h = ground (arith, eq_iff a b)
  same_origin-eq none (some b) h = ground arith
  same_origin-eq (some a) none h = ground arith

  send-IsConfined :
      (raw url : String)
      → (((if same_origin p (origin_of p url) (origin_of p raw) then o.headers else []) ≡ [])
          ⊎ (origin_of p url ≡ origin_of p raw))
  send-IsConfined raw url = elim (Bool-cases (same_origin p (origin_of p url) (origin_of p raw))) [
    | inl e ↦ inr (same_origin-eq (origin_of p url) (origin_of p raw) e)
    | inr e ↦ inl (rw e refl)
  ]

  -- An exchange with the same variables but for the result, the timings and the body.
  pub record Similar (s t : Exchange) : Type 0 where
    pub url : t.raw_url ≡ s.raw_url
    pub redirects : t.redirects ≡ s.redirects
    pub requests : t.sent ≡ s.sent

  Similar-Inv : (raw : String) (s t : Exchange) → Similar s t → Inv raw s → Inv raw t
  Similar-Inv raw s t e v = record {
    same_url = e.url ∙ v.same_url;
    confined = subst (All (IsConfined raw)) (sym e.requests) v.confined;
    redirected = omega (arith, e.redirects, v.redirected);
    requested = omega (arith, e.redirects, ap length e.requests, v.requested);
  }

  finish-Similar : (s : Exchange) (now : ℕ) (v : Verdict) → Similar s (finish s now v)
  unfolding finish
  finish-Similar s now v = ground arith

  send-Inv :
      (raw : String) (s : Exchange) (now : ℕ) (url : String)
      → Inv raw s
      → length s.sent ≤ s.redirects
      → Inv raw (send p o s now url)
  send-Inv raw s now url v h = record {
    same_url = v.same_url;
    confined = (rw v.same_url (send-IsConfined raw url), v.confined);
    redirected = v.redirected;
    requested = omega (arith, h);
  }

  request_protocol-Inv :
      (raw : String) (s : Exchange) (now : ℕ) (url : String) (q : Protocol)
      → Inv raw s
      → length s.sent ≤ s.redirects
      → Inv raw (request_protocol p o s now url q)
  request_protocol-Inv raw s now url http_protocol v h = send-Inv raw s now url v h
  request_protocol-Inv raw s now url https_protocol v h = send-Inv raw s now url v h
  request_protocol-Inv raw s now url (other_protocol q) v h =
      Similar-Inv raw s _ (finish-Similar s now _) v

  request_parsed-Inv :
      (raw : String) (s : Exchange) (now : ℕ) (url : String) (u : Option Parsed)
      → Inv raw s
      → length s.sent ≤ s.redirects
      → Inv raw (request_parsed p o s now url u)
  request_parsed-Inv raw s now url none v h = Similar-Inv raw s _ (finish-Similar s now _) v
  request_parsed-Inv raw s now url (some u) v h = request_protocol-Inv raw s now url u.protocol v h

  request-Inv :
      (raw : String) (s : Exchange) (now : ℕ) (url : String)
      → Inv raw s
      → length s.sent ≤ s.redirects
      → Inv raw (request p o s now url)
  unfolding request
  request-Inv raw s now url v h = request_parsed-Inv raw s now url (p.parse url) v h

  follow-Inv :
      (raw : String) (s : Exchange) (now : ℕ) (url : Option String)
      → Inv raw s
      → length s.sent ≤ s.redirects
      → Inv raw (follow p o s now url)
  follow-Inv raw s now none v h =
      Similar-Inv raw s _ (record { url = refl; redirects = refl; requests = refl }) v
  follow-Inv raw s now (some url) v h = request-Inv raw s now url v h

  respond_located-Inv :
      (raw : String) (s : Exchange) (now code : ℕ) (l : String)
      → Inv raw s
      → Inv raw (respond_located p o s now code l)
  respond_located-Inv raw s now code l v =
      elim (Bool-cases (leb 300 code && (ltb code 400 && ltb s.redirects o.max_redirects))) [
        | inl e ↦ rw e (
            follow-Inv raw (record s { redirects = s.redirects + 1 }) now (p.resolve l s.target)
              (record {
                same_url = v.same_url;
                confined = v.confined;
                redirected = ground (arith, e);
                requested = omega (arith, v.requested);
              })
              (omega (arith, v.requested)))
        | inr e ↦ rw e (elim (Bool-cases (leb o.max_redirects s.redirects)) [
          | inl f ↦ rw f (Similar-Inv raw s _ (finish-Similar s now _) v)
          | inr f ↦
              rw f
                (Similar-Inv raw s _ (record { url = refl; redirects = refl; requests = refl }) v)
        ])
      ]

  respond_to-Inv :
      (raw : String) (s : Exchange) (now code : ℕ) (l : Option String)
      → Inv raw s
      → Inv raw (respond_to p o s now code l)
  respond_to-Inv raw s now code none v =
      Similar-Inv raw s _ (record { url = refl; redirects = refl; requests = refl }) v
  respond_to-Inv raw s now code (some l) v = respond_located-Inv raw s now code l v

  respond-Inv :
      (raw : String) (s : Exchange) (now code : ℕ) (l : Option String)
      → Inv raw s
      → Inv raw (respond p o s now code l)
  unfolding respond
  respond-Inv raw s now code l v =
      respond_to-Inv raw _ now code (given p l)
        (Similar-Inv raw s _ (record { url = refl; redirects = refl; requests = refl }) v)

  end_body-Similar : (s : Exchange) (now : ℕ) (c : Option ℕ) → Similar s (end_body p s now c)
  unfolding settle_with_status
  end_body-Similar s now none = record { url = refl; redirects = refl; requests = refl }
  end_body-Similar s now (some code) = ground arith

  handle-Inv :
      (raw : String) (s : Exchange) (now : ℕ) (e : Event) → Inv raw s → Inv raw (handle p o s now e)
  unfolding fail
  handle-Inv raw s now deadline v = Similar-Inv raw s _ (finish-Similar s now _) v
  handle-Inv raw s now (failed f) v = Similar-Inv raw s _ (finish-Similar s now _) v
  handle-Inv raw s now (response code l) v = respond-Inv raw s now code l v
  handle-Inv raw s now body_failed v = Similar-Inv raw s _ (end_body-Similar s now s.responded) v
  handle-Inv raw s now body_ended v = Similar-Inv raw s _ (end_body-Similar s now s.responded) v
  handle-Inv raw s now body_closed v = Similar-Inv raw s _ (end_body-Similar s now s.responded) v
  handle-Inv raw s now _ v =
      Similar-Inv raw s _ (record { url = refl; redirects = refl; requests = refl }) v

  step-Inv :
      (raw : String) (s : Exchange) (now : ℕ) (e : Event) → Inv raw s → Inv raw (step p o s now e)
  unfolding step
  step-Inv raw s now e v = elim (Bool-cases s.crashed) [
    | inl c ↦ simp c v
    | inr c ↦ simp c (handle-Inv raw s now e v)
  ]

  events-Inv :
      (raw : String) (s : Exchange) (es : List (ℕ × Event)) → Inv raw s → Inv raw (events p o s es)
  unfolding events
  events-Inv raw s [] v = v
  events-Inv raw s ((now, e) ∷ es) v = events-Inv raw (step p o s now e) es (step-Inv raw s now e v)

  -- Whatever events arrive, in any order and at any times: every request sent carries none of the
  -- caller's headers or goes to the origin of the monitor's URL; at most `maxRedirects` redirects
  -- are followed, and at most one request more than that is sent.
  pub probe_once-Inv :
      (url : String) (now : ℕ) (es : List (ℕ × Event)) → Inv url (probe_once p o url now es)
  unfolding probe_once
  probe_once-Inv url now es = events-Inv url (request p o (start p url now) now url) es (
      request-Inv url (start p url now) now url
        (record {
          same_url = refl;
          confined = tt;
          redirected = omega arith;
          requested = omega arith;
        })
        (omega arith))
