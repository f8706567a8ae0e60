-- ===== src/Tests/Registry.antt =====
-- Tests of the registry of connections.
use gatewaysshd.Common.{refl, text_key}
use gatewaysshd.Gateway.Index.{IsIndexed, add_connection-IsIndexed}
use gatewaysshd.Tests.{program, empty_gateway, gateway}

pub empty_gateway-IsIndexed : IsIndexed empty_gateway
unfolding program
empty_gateway-IsIndexed = record { indexed = λ user. refl; distinct = tt }

pub gateway-IsIndexed : IsIndexed gateway
unfolding program
gateway-IsIndexed = add_connection-IsIndexed empty_gateway 7 empty_gateway-IsIndexed
