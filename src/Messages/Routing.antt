-- ===== src/Messages/Routing.antt =====
-- Requests and responses on their way through the gateway, with the names of both ends.
use modbusgw.Base.{ℕ, Option, String}
use modbusgw.Messages.Pdu.{Operation, operation, with_unit}
use modbusgw.Messages.Requests.{Request, Register, request_code, register}
use modbusgw.Messages.Responses.{Response}

-- Of the metadata nothing reads; it is left out.
pub record RequestContext : Type 0 where
  pub frontend : String
  pub request_id : Option String

pub record RoutedRequest : Type 0 where
  pub context : RequestContext
  pub pdu : Request

-- The properties of a `RoutedRequest`, which the router reads by name.
abbrev pub frontend_of : RoutedRequest → String
frontend_of r = r.context.frontend

abbrev pub unit_of : RoutedRequest → ℕ
unit_of r = r.pdu.unit_id

abbrev pub code_of : RoutedRequest → ℕ
code_of r = request_code r.pdu.body

abbrev pub operation_of : RoutedRequest → Option Operation
operation_of r = operation (request_code r.pdu.body)

abbrev pub register_of : RoutedRequest → Register
register_of r = register r.pdu.body

-- `RoutedRequest.with_unit`
unfoldable pub routed_with_unit : RoutedRequest → ℕ → RoutedRequest
unfolding with_unit
routed_with_unit r unit_id = record r { pdu = with_unit r.pdu unit_id }

pub record ResponseContext : Type 0 where
  pub frontend : String
  pub backend : String
  pub request_id : Option String

pub record RoutedResponse : Type 0 where
  pub context : ResponseContext
  pub request : Option Request
  pub response : Option Response
  pub exception : Option Response
  pub error : Option String
