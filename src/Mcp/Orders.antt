-- ===== src/Mcp/Orders.antt =====
-- tools/orders.py: the arguments of the two tools, the calls of the order service, and the views of
-- its replies. httpx, the JSON parser and pydantic's conversion of an amount are parameters.
pub mod Args
pub mod Handlers
pub mod Requests
mod Tests
