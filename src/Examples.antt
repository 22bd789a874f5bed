-- ===== src/Examples.antt =====
-- The properties applied to concrete stores and requests.
mod Bridge
mod Requests
mod Replays
mod Bundles
mod Coordinators
mod Dispatches
mod Folders
mod Commands
mod Startup
mod Applications
mod Deployments
mod Workers
mod Clients
mod Secured
mod Saved
mod Pairings
