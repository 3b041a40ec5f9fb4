-- ===== src/Clients.antt =====
-- The clients of src/sprinter/integrations/. Their requests go out through httpx, which is an argument
-- of the calls; the regular expressions are written out as readers of texts.
pub mod Patterns
pub mod Splunk
pub mod Adx
pub mod Confluence
