-- ===== src/Examples.antt =====
-- The statements tried on a concrete node.
mod World
mod Handovers
mod Clusters
mod Processes
mod Requests
mod Archives
mod Texts
mod Files
mod Logs
mod Commands
mod Services
mod Pages
mod Defaults
mod Links
