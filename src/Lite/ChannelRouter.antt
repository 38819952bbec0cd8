-- ===== src/Lite/ChannelRouter.antt =====
-- harness/lite/channel.go: the channels of each tenant. The order of a `range` over a tenant's map is
-- an argument, and so is the send function, code of the application.
pub mod Registered
mod Tests
use openharness.Prelude.{ℕ, String, Bool, true, false, Option, none, some, List, [], ◌∷◌}
use openharness.Prelude.GoMap
use openharness.Prelude.GoMap.{GoMap}
use openharness.Prelude.Int64.{inc}
use openharness.Prelude.Result.{Result, ok, err}
use openharness.Harness.Errors.{HarnessError, not_found}
use openharness.Harness.Types.{ChannelConfig, ChannelInfo}

-- the counter is an int64
pub record LiteChannelRouter : Type 0 where
  pub channels : GoMap (GoMap ChannelInfo)
  pub counter : ℕ

unfoldable pub new_lite_channel_router : LiteChannelRouter
unfolding GoMap.empty
new_lite_channel_router = record { channels = GoMap.empty; counter = 0 }

-- `HandleInbound`
abbrev pub handle_inbound : {A : Type 0} → LiteChannelRouter → Result HarnessError A
handle_inbound r = err not_found

-- `SendOutbound`, with the effect of the send function, if there is one, on the world outside
unfoldable pub send_outbound :
    {W M E : Type 0}
    → Option (String → M → W → Result E (Unit {0}) × W)
    → String
    → M
    → W
    → Result E (Unit {0}) × W
send_outbound none channel_name msg w = (ok tt, w)
send_outbound (some send_fn) channel_name msg w = send_fn channel_name msg w

-- a tenant's map, empty when the tenant has none
unfoldable pub tenant_channels : LiteChannelRouter → String → GoMap ChannelInfo
unfolding GoMap.get GoMap.empty
tenant_channels r tenant_id = elim (GoMap.get r.channels tenant_id) [
  | some tenant ↦ tenant
  | none ↦ GoMap.empty
]

abbrev pub channel_info : String → ChannelConfig → ChannelInfo
channel_info channel_type cfg = record {
  name = cfg.name;
  channel_type = channel_type;
  direction = cfg.direction;
  webhook_url = "";
  enabled = true;
}

-- `RegisterWebhook`, whose URL is always empty
unfoldable pub register_webhook :
    String
    → String
    → ChannelConfig
    → LiteChannelRouter
    → Result HarnessError String × LiteChannelRouter
unfolding GoMap.put tenant_channels
register_webhook tenant_id channel_type cfg r = (
  ok "",
  record {
    channels =
        GoMap.put r.channels tenant_id
          (GoMap.put (tenant_channels r tenant_id) channel_type (channel_info channel_type cfg));
    counter = inc r.counter;
  },
)

unfoldable pub unregister_webhook :
    String → String → LiteChannelRouter → Result HarnessError (Unit {0}) × LiteChannelRouter
unfolding GoMap.get GoMap.put GoMap.delete
unregister_webhook tenant_id channel_type r = elim (GoMap.get r.channels tenant_id) [
  | none ↦ (err not_found, r)
  | some tenant ↦ elim (GoMap.get tenant channel_type) [
    | none ↦ (err not_found, r)
    | some _ ↦ (
      ok tt,
      record r { channels = GoMap.put r.channels tenant_id (GoMap.delete tenant channel_type) },
    )
  ]
]

-- the loop of `ListChannels`
unfoldable pub infos : List (String × ChannelInfo) → List ChannelInfo
infos [] = []
infos ((channel_type, info) ∷ visit) = info ∷ infos visit

-- `ListChannels`, over a range of the tenant's map
unfoldable pub list_channels :
    List (String × ChannelInfo) → String → LiteChannelRouter → List ChannelInfo
unfolding GoMap.get infos
list_channels visit tenant_id r = elim (GoMap.get r.channels tenant_id) [
  | none ↦ []
  | some _ ↦ infos visit
]
