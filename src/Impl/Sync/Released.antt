-- ===== src/Impl/Sync/Released.antt =====
-- src/AITTImpl.cc: `PublishWithReplySync` comes back, and what it has done to the subscription.
use aitt.Base.{number_key}
use aitt.MqDiscovery.{MqDiscovery}
use aitt.Loop.{Loop}
use aitt.Impl.Sync.{Sync}
