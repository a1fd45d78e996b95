-- ===== src/Monitoring.antt =====
-- Subscriptions and monitored items: the contexts that carry the user's callbacks
-- (services/detail/subscription_context.hpp and monitoreditem_context.hpp), the services that
-- store them (src/services_subscription.cpp, src/services_monitoreditem.cpp) and the lists of
-- src/client.cpp and src/subscription.cpp. A context is known to the C library by its address; it
-- is the one that stands under its key in the map.
pub mod Contexts
pub mod Create
pub mod Notify
pub mod Delivery
pub mod Lifecycle
