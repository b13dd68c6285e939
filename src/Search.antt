-- ===== src/Search.antt =====
-- src/swf/search: the search router, its policies, the response envelope and anonymous tickets.
pub mod Response
pub mod Policy
pub mod Query
pub mod Sufficiency
pub mod Router
pub mod Tickets
