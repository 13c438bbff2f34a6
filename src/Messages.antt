-- ===== src/Messages.antt =====
-- modbusgw/core/messages.py (and its copy modbusgw_client/pdu.py): protocol data units.
pub mod Pdu
pub mod Coils
pub mod Requests
pub mod Responses
pub mod Routing
