-- ===== src/Api.antt =====
-- app/api/controller and app/api/client/response: the replies of the HTTP API.
pub mod Response
pub mod Cookie
pub mod Exception
pub mod AuthController
pub mod SignsOut
pub mod SignsIn
pub mod Principal
pub mod Pages
