-- ===== src/Tests.antt =====
-- Runs of the model on concrete inputs, and the theorems at such inputs.
mod Requests
mod Configs
mod Upstreams
mod Serving
mod Forwarding
mod Startup
mod Pool
mod Logs
mod Running
mod Tasks
mod EndToEnd
