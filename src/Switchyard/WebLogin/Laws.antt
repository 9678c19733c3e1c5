-- ===== src/Switchyard/WebLogin/Laws.antt =====
-- Whose key a login stores.
use nexus_ai_gateway.Prelude.{
  ℕ, zero, suc, String, ◌≡◌, ◌≢◌, refl, sym, ap, ◌∙◌, subst, ◌⊎◌, inl, inr, Bool, not, ◌||◌, Option,
  none, some, List, [], ◌∷◌, In, here, there, In-cons, ◌==◌, eq_iff, arith, Bool-cases,
  Option-cases,
}
use mathlib.Core.Bool.{true≢false}
use nexus_ai_gateway.Domain.Errors.{Err, Result, ok}
use nexus_ai_gateway.Switchyard.Calls.{Credentials}
use nexus_ai_gateway.Switchyard.WebLogin.{
  CallbackRequest, presented, credentials_of, Saving, saved, not_opened, torn, Handled, save_error,
  after_save, callback, Event, called, delivered, timed_out, interrupted, Login, finish, nth_sent,
  with_sent, react, await, login_with, bind_port, with_nonce, base_url_of, start_web_auth_flow,
}

-- A request that presents the nonce and a key.
abbrev pub Presents : String → CallbackRequest → Type 0
Presents nonce r = ((presented r).state ≡ nonce) × ((presented r).key ≢ "")

-- Credentials that are made of such a request, whose handler saved them.
pub record IsBearer (nonce url : String) (events : List Event) (creds : Credentials) : Type 0 where
  pub request : CallbackRequest
  pub sent : In (called saved request) events
  pub presents : Presents nonce request
  pub made : creds ≡ credentials_of url (presented request)

-- What is stored: the credentials of such a request, or what a failed save of them left.
pub record IsLeft (nonce url : String) (events : List Event) (after : Option Credentials)
    : Type 0 where
  pub saving : Saving
  pub request : CallbackRequest
  pub sent : In (called saving request) events
  pub presents : Presents nonce request
  pub left :
      ((saving ≡ saved) × (after ≡ some (credentials_of url (presented request))))
      ⊎ ((e : Err) × (saving ≡ torn e after))

-- What is stored is the old, or such a request left it; what is returned is such a request's.
abbrev pub IsEarned : String → String → List Event → Option Credentials → Login → Type 0
IsEarned nonce url events before login =
    ((login.stored ≡ before) ⊎ IsLeft nonce url events login.stored)
    × ((creds : Credentials) → login.result ≡ some (ok creds) → IsBearer nonce url events creds)

module _ (nonce url : String) (events : List Event) (before : Option Credentials) where
  abbrev AllSent : List (Result Credentials) → Type 0
  AllSent rs = (creds : Credentials) → In (ok creds) rs → IsBearer nonce url events creds

  -- The invariant of the flow: it is earned, and so is every result that was sent.
  abbrev IsFair : Login → Type 0
  IsFair login = IsEarned nonce url events before login × AllSent login.sent

  -- What a handler stores and sends.
  abbrev IsFairly : Option Credentials → Handled → Type 0
  IsFairly stored h =
      ((h.stored ≡ stored) ⊎ IsLeft nonce url events h.stored)
      × ((creds : Credentials) → h.result ≡ some (ok creds) → IsBearer nonce url events creds)

  after_save-IsFairly :
      (saving : Saving) (stored : Option Credentials) (r : CallbackRequest)
      → In (called saving r) events
      → Presents nonce r
      → IsFairly stored (after_save stored (credentials_of url (presented r)) saving)
  unfolding after_save save_error
  after_save-IsFairly saved stored r m p = (
    inr (record { saving = saved; request = r; sent = m; presents = p; left = inl (refl, refl) }),
    λ creds h. record { request = r; sent = m; presents = p; made = cc },
  )
  after_save-IsFairly (not_opened e) stored r m p = (inl refl, λ creds h. cc h)
  after_save-IsFairly (torn e left) stored r m p = (
    inr (record {
      saving = torn e left;
      request = r;
      sent = m;
      presents = p;
      left = inr (e, refl);
    }),
    λ creds h. cc h,
  )

  callback-IsFairly :
      (saving : Saving) (stored : Option Credentials) (r : CallbackRequest)
      → In (called saving r) events
      → IsFairly stored (callback nonce url saving stored r)
  unfolding callback
  callback-IsFairly saving stored r m = elim (Bool-cases (r.method == "OPTIONS")) [
    | inl e ↦ rw (callback, e) (inl refl, λ creds h. cc h)
    | inr e ↦ elim (Bool-cases ((presented r).state == "" || not ((presented r).state == nonce))) [
      | inl f ↦ rw (callback, e, f) (inl refl, λ creds h. cc h)
      | inr f ↦ elim (Bool-cases ((presented r).key == "")) [
        | inl k ↦ rw (callback, e, f, k) (inl refl, λ creds h. cc h)
        | inr k ↦
            rw (callback, e, f, k)
              (after_save-IsFairly saving stored r m (
                ground (arith, eq_iff (presented r).state nonce),
                λ z. absurd (true≢false (sym ((eq_iff (presented r).key "").1 z) ∙ k)),
              ))
      ]
    ]
  ]

  with_sent-AllSent :
      (found : Option (Result Credentials)) (rs : List (Result Credentials))
      → ((creds : Credentials) → found ≡ some (ok creds) → IsBearer nonce url events creds)
      → AllSent rs
      → AllSent (with_sent found rs)
  unfolding with_sent
  with_sent-AllSent none rs h all creds m = all creds m
  with_sent-AllSent (some r) rs h all creds m = elim (In-cons m) [
    | inl e ↦ h creds (ap some (sym e))
    | inr n ↦ all creds n
  ]

  nth_sent-In :
      (rs : List (Result Credentials)) (n : ℕ) (r : Result Credentials)
      → nth_sent rs n ≡ some r
      → In r rs
  unfolding nth_sent
  nth_sent-In [] n r h = cc h
  nth_sent-In (x ∷ rs) zero r h = let same : x ≡ r = cc h in subst (λ y. In y (x ∷ rs)) same here
  nth_sent-In (x ∷ rs) (suc n) r h = there (nth_sent-In rs n r h)

  finish-IsFair :
      (found : Option (Result Credentials)) (login : Login)
      → ((creds : Credentials) → found ≡ some (ok creds) → IsBearer nonce url events creds)
      → IsFair login
      → IsFair (finish found login)
  unfolding finish
  finish-IsFair found login h fair = elim (Option-cases login.result) [
    | inl e ↦ rw (finish, e) ((fair.0.0, h), fair.1)
    | inr (r, e) ↦ rw (finish, e) fair
  ]

  react-IsFair :
      (e : Event) (login : Login) → In e events → IsFair login → IsFair (react nonce url e login)
  unfolding react
  react-IsFair (called saving r) login m ((kept, returned), all) =
      let (stored, sent) = callback-IsFairly saving login.stored r m in
      ((later stored, returned), with_sent-AllSent _ login.sent sent all)
    where
      later :
          {after : Option Credentials}
          → (after ≡ login.stored) ⊎ IsLeft nonce url events after
          → (after ≡ before) ⊎ IsLeft nonce url events after
      later (inl same) = elim kept [
        | inl k ↦ inl (same ∙ k)
        | inr k ↦ inr (subst (IsLeft nonce url events) (sym same) k)
      ]
      later (inr l) = inr l
  react-IsFair (delivered n) login m fair =
      finish-IsFair _ login (λ creds h. fair.1 creds (nth_sent-In login.sent n (ok creds) h)) fair
  react-IsFair timed_out login m fair = finish-IsFair _ login (λ creds h. cc h) fair
  react-IsFair interrupted login m fair = finish-IsFair _ login (λ creds h. cc h) fair

  await-IsFair :
      (rest : List Event) (login : Login)
      → ((e : Event) → In e rest → In e events)
      → IsFair login
      → IsFair (await nonce url login rest)
  unfolding await
  await-IsFair [] login sub fair = fair
  await-IsFair (e ∷ rest) login sub fair =
      await-IsFair rest (react nonce url e login) (λ x m. sub x (there m))
        (react-IsFair e login (sub e here) fair)

-- Whoever calls the local server, in whatever order the handlers save and send, the flow takes a
-- result, the time runs out or a signal comes, also behind the end of the flow, if no two saves overlap:
-- the flow returns credentials only if they are the key and the project of a request that presented the
-- generated nonce and a key, with the gateway's URL, and that request's handler saved them. What is
-- stored in the end is what was stored before, the credentials of such a request, or what a save of
-- such a request left that failed after the file was emptied.
pub start_web_auth_flow-IsEarned :
    (is_free : ℕ → Bool) (nonce url : String) (stored : Option Credentials) (events : List Event)
    → IsEarned nonce
        (base_url_of url)
        events
        stored
        (start_web_auth_flow is_free (some nonce) url stored events)
unfolding start_web_auth_flow with_nonce login_with
start_web_auth_flow-IsEarned is_free nonce url stored events =
    elim (Option-cases (bind_port is_free 11 45454)) [
      | inl n ↦ rw (start_web_auth_flow, n) (inl refl, λ creds h. cc h)
      | inr (p, e) ↦
          rw (start_web_auth_flow, e)
            (await-IsFair nonce (base_url_of url) events stored events (login_with none stored)
              (λ x m. m) ((inl refl, λ creds h. cc h), λ creds m. elim m [ ])).0
    ]
