-- ===== src/Oauth.antt =====
-- src/oauth: the authorization server. The scope strings are in Oauth/Scopes.antt, the rows in
-- Oauth/State.antt, the grants in Oauth/Issue.antt, Oauth/Grants.antt and Oauth/Poll.antt, the token
-- endpoint in Oauth/Token.antt and the device flow in Oauth/Device.antt.
pub mod Scopes
pub mod State
pub mod Issue
pub mod Grants
pub mod Poll
pub mod Token
pub mod Device
pub mod Tests
