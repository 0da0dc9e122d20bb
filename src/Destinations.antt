-- ===== src/Destinations.antt =====
-- internal/connector/destination: the destinations that rows are delivered to.
pub mod Client
pub mod Connect
pub mod Loading
pub mod Upserts
pub mod RestApi
pub mod GoogleSheets
pub mod HubSpot
pub mod Zendesk
pub mod Intercom
pub mod Pipedrive
pub mod Batches
pub mod Klaviyo
pub mod Mixpanel
pub mod Slack
pub mod Spec
pub mod Tests
