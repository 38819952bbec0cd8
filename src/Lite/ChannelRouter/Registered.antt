-- ===== src/Lite/ChannelRouter/Registered.antt =====
-- harness/lite/channel.go: which channels are registered after a call, and what a listing gives.
use mathlib.Core.Path.{subst}
use openharness.Prelude.Int64.{inc}
use openharness.Prelude.{
  ℕ, String, ◌&&◌, ◌≡◌, refl, sym, ap, ◌∙◌, Option, none, some, List, [], ◌∷◌, Has, eq_iff, ◌==◌,
  if◌then◌else◌, Bool-cases, Option-cases, inl, inr, ◌↔◌,
}
use openharness.Prelude.GoMap
use openharness.Prelude.GoMap.{
  GoMap, IsRange, get-empty, get-put, get-delete, Has-of_find, find_of_Has,
}
use openharness.Prelude.Result.{Result, ok, err}
use openharness.Harness.Errors.{HarnessError, not_found}
use openharness.Harness.Types.{ChannelConfig, ChannelInfo}
use openharness.Lite.ChannelRouter.{
  LiteChannelRouter, tenant_channels, channel_info, register_webhook, unregister_webhook, infos,
  list_channels,
}

-- What is registered for a tenant and a type.
unfoldable pub channel : LiteChannelRouter → String → String → Option ChannelInfo
channel r tenant_id channel_type = GoMap.get (tenant_channels r tenant_id) channel_type

tenant-put :
    (r : LiteChannelRouter) (t t' : String) (m : GoMap ChannelInfo) (n : ℕ)
    → tenant_channels (record { channels = GoMap.put r.channels t m; counter = n }) t'
      ≡ (if t == t' then m else tenant_channels r t')
unfolding tenant_channels
tenant-put r t t' m n = elim (Bool-cases (t == t')) [
  | inl same ↦ rw (get-put r.channels t t' m, tenant_channels) (rw same refl)
  | inr other ↦ rw (get-put r.channels t t' m, tenant_channels) (rw other refl)
]

-- A registration takes effect for its tenant and type, in place of what was there, and changes nothing
-- else.
pub channel-register_webhook :
    (t ty t' ty' : String) (cfg : ChannelConfig) (r : LiteChannelRouter)
    → channel (register_webhook t ty cfg r).1 t' ty'
      ≡ (if t == t' && ty == ty' then some (channel_info ty cfg) else channel r t' ty')
unfolding channel register_webhook
channel-register_webhook t ty t' ty' cfg r =
    ap (λ (m : GoMap ChannelInfo). GoMap.get m ty')
      (tenant-put r t t' (GoMap.put (tenant_channels r t) ty (channel_info ty cfg)) (inc r.counter))
    ∙ elim (Bool-cases (t == t')) [
      | inl same ↦ rw same (
          get-put (tenant_channels r t) ty ty' (channel_info ty cfg)
          ∙ ap
              (λ j.
                if ty == ty'
                then some (channel_info ty cfg)
                else GoMap.get (tenant_channels r j) ty')
              ((eq_iff t t').0 same))
      | inr other ↦ rw other refl
    ]

-- What an `UnregisterWebhook` leaves, by its reply.
abbrev pub UnregisterOutcome :
    LiteChannelRouter
    → String
    → String
    → Result HarnessError (Unit {0}) × LiteChannelRouter
    → Type 0
UnregisterOutcome r t ty (ok u, after) =
    ((info : ChannelInfo) × (channel r t ty ≡ some info))
    × ((t' ty' : String)
        → channel after t' ty' ≡ (if t == t' && ty == ty' then none else channel r t' ty'))
UnregisterOutcome r t ty (err e, after) = (e ≡ not_found) × (after ≡ r) × (channel r t ty ≡ none)

tenant_found :
    (r : LiteChannelRouter) (t : String) (m : GoMap ChannelInfo)
    → GoMap.get r.channels t ≡ some m
    → tenant_channels r t ≡ m
unfolding tenant_channels
tenant_found r t m found = rw (found, tenant_channels) refl

tenant_missing :
    (r : LiteChannelRouter) (t ty : String) → GoMap.get r.channels t ≡ none → channel r t ty ≡ none
unfolding tenant_channels channel
tenant_missing r t ty absent = rw (absent, tenant_channels) (get-empty ty)

unregister_unknown :
    (t ty : String) (r : LiteChannelRouter)
    → channel r t ty ≡ none
    → unregister_webhook t ty r ≡ (err not_found, r)
unfolding unregister_webhook channel
unregister_unknown t ty r unknown = elim (Option-cases (GoMap.get r.channels t)) [
  | inl absent ↦ rw (absent, unregister_webhook) refl
  | inr (m, found) ↦
      let none_there : GoMap.get m ty ≡ none =
        ap (λ (x : GoMap ChannelInfo). GoMap.get x ty) (sym (tenant_found r t m found)) ∙ unknown in
      rw (found, unregister_webhook) (rw (none_there, unregister_webhook) refl)
]

unregister_known :
    (t ty : String) (r : LiteChannelRouter) (info : ChannelInfo)
    → channel r t ty ≡ some info
    → unregister_webhook t ty r ≡ (
      ok tt,
      record r { channels = GoMap.put r.channels t (GoMap.delete (tenant_channels r t) ty) },
    )
unfolding unregister_webhook channel
unregister_known t ty r info known = elim (Option-cases (GoMap.get r.channels t)) [
  | inl absent ↦ absurd (cc (tenant_missing r t ty absent))
  | inr (m, found) ↦
      let there : GoMap.get m ty ≡ some info =
        ap (λ (x : GoMap ChannelInfo). GoMap.get x ty) (sym (tenant_found r t m found)) ∙ known in
      rw (tenant_found r t m found)
        (rw (found, unregister_webhook) (rw (there, unregister_webhook) refl))
]

-- `UnregisterWebhook` takes out the channel of the tenant and the type and nothing else, or, when
-- there is none, it fails with `ErrNotFound` and changes nothing.
pub unregister_webhook_outcome :
    (t ty : String) (r : LiteChannelRouter) → UnregisterOutcome r t ty (unregister_webhook t ty r)
unfolding channel
unregister_webhook_outcome t ty r = elim (Option-cases (channel r t ty)) [
  | inl unknown ↦
      subst (UnregisterOutcome r t ty) (sym (unregister_unknown t ty r unknown))
        (refl, refl, unknown)
  | inr (info, known) ↦
      subst (UnregisterOutcome r t ty) (sym (unregister_known t ty r info known))
        ((info, known), λ t' ty'. taken t' ty')
]
  where
    taken :
        (t' ty' : String)
        → channel
            (record r { channels = GoMap.put r.channels t (GoMap.delete (tenant_channels r t) ty) })
            t'
            ty'
          ≡ (if t == t' && ty == ty' then none else channel r t' ty')
    taken t' ty' =
        ap (λ (m : GoMap ChannelInfo). GoMap.get m ty')
          (tenant-put r t t' (GoMap.delete (tenant_channels r t) ty) r.counter)
        ∙ elim (Bool-cases (t == t')) [
          | inl same ↦ rw same (
              get-delete (tenant_channels r t) ty ty'
              ∙ ap (λ j. if ty == ty' then none else GoMap.get (tenant_channels r j) ty')
                  ((eq_iff t t').0 same))
          | inr other ↦ rw other refl
        ]

Has-infos :
    (info : ChannelInfo) (visit : List (String × ChannelInfo))
    → Has info (infos visit)
    → (ty : String) × Has (ty, info) visit
unfolding infos
Has-infos info [] h = absurd h
Has-infos info ((ty, x) ∷ visit) (inl e) = (ty, inl (ap (λ (y : ChannelInfo). (ty, y)) e))
Has-infos info ((ty, x) ∷ visit) (inr h) = let (j, at) = Has-infos info visit h in (j, inr at)

infos_of_Has :
    (ty : String) (info : ChannelInfo) (visit : List (String × ChannelInfo))
    → Has (ty, info) visit
    → Has info (infos visit)
unfolding infos
infos_of_Has ty info [] h = absurd h
infos_of_Has ty info ((j, x) ∷ visit) (inl e) = inl (ap (λ p. p.1) e)
infos_of_Has ty info ((j, x) ∷ visit) (inr h) = inr (infos_of_Has ty info visit h)

-- Over any range of the tenant's map, a listing gives the channels that are registered for the tenant,
-- and no other.
pub list_channels_iff :
    (t : String) (r : LiteChannelRouter) (visit : List (String × ChannelInfo)) (info : ChannelInfo)
    → IsRange (tenant_channels r t) visit
    → Has info (list_channels visit t r) ↔ ((ty : String) × (channel r t ty ≡ some info))
unfolding list_channels channel
list_channels_iff t r visit info range = elim (Option-cases (GoMap.get r.channels t)) [
  | inl absent ↦
      rw (absent, list_channels)
        (λ h. absurd h, λ (ty, there). absurd (cc (tenant_missing r t ty absent)))
  | inr (m, found) ↦
      rw (found, list_channels)
        (
          λ h.
              let (ty, at) = Has-infos info visit h in
              (ty, sym (range.same ty) ∙ find_of_Has ty info visit range.distinct at),
          λ (ty, there).
              infos_of_Has ty info visit (Has-of_find ty info visit (range.same ty ∙ there)),
        )
]
