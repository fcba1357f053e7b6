-- ===== src/Cognito.antt =====
-- Flask app/tenant-saas-app-fixed/tenant-saas-app/services/cognito_service.py: the token endpoint
-- of Cognito's hosted pages, and the user pool. What answers the HTTP request is a parameter.
mod TokenEndpoint
pub mod UserPool
pub use TokenEndpoint.{TokenBody, HttpReply, network_error, reply, Endpoint, Tokens}
unfoldable pub use TokenEndpoint.{exchange_code_for_tokens, refresh_tokens}
