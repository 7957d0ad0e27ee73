-- ===== src/Tests.antt =====
-- Runs on concrete inputs: an organization, one agent, and what its console and controller ask.
mod Data
mod Decisions
mod Store
mod Running
mod Agents
mod Repeats
mod Tokens
mod Requests
mod Feeds
mod Fences
mod Consoles
mod Controllers
