-- ===== src/Tests.antt =====
-- Runs of the model on concrete data, and the theorems at inputs where their hypotheses hold.
mod Archives
mod Backups
mod Disks
mod Stores
mod Secrets
mod Tables
mod Runs
mod Ftp
mod Mirrors
mod Requests
mod Races
mod Reloads
mod Zips
mod Listings
mod Logins
mod Starts
mod Systems
mod Kept
mod Locks
mod Created
