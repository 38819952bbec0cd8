-- ===== src/Lite/ChannelRouter/Tests.antt =====
-- harness/lite/channel.go: one tenant with one channel.
use openharness.Prelude.{refl, [], ◌∷◌}
use openharness.Prelude.GoMap
use openharness.Prelude.GoMap.{IsRange}
use openharness.Harness.Types.{ChannelConfig}
use openharness.Lite.ChannelRouter.{
  LiteChannelRouter, new_lite_channel_router, tenant_channels, channel_info, register_webhook,
  unregister_webhook,
}
use openharness.Lite.ChannelRouter.Registered.{UnregisterOutcome, unregister_webhook_outcome}

abbrev slack : ChannelConfig
slack = record { name = "alerts"; config_type = "slack"; direction = "outbound"; config = "" }

abbrev with_slack : LiteChannelRouter
with_slack = (register_webhook "t" "slack" slack new_lite_channel_router).1

unregister_webhook_outcome_example :
    UnregisterOutcome with_slack "t" "slack" (unregister_webhook "t" "slack" with_slack)
unregister_webhook_outcome_example = unregister_webhook_outcome "t" "slack" with_slack

slack-IsRange :
    IsRange (tenant_channels with_slack "t") (("slack", channel_info "slack" slack) ∷ [])
unfolding register_webhook new_lite_channel_router tenant_channels GoMap.get GoMap.put GoMap.empty
    GoMap.find
slack-IsRange = record { same = λ k. refl; distinct = (refl, tt) }
