-- ===== src/Tests.antt =====
-- Concrete pods, environments and libraries, and the theorems at them.
mod ApiServer
mod Webhook
mod Injection
mod Requests
mod Inputs
mod Init
mod Keeper
mod Providers
mod Servers
mod Clients
mod Commands
mod WebhookCommand
mod Agreement
mod Slots
