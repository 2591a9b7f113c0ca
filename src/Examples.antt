-- ===== src/Examples.antt =====
-- Runs of the definitions on concrete inputs, and the theorems at such inputs.
mod Channels
mod Format
mod Tables
mod Frames
mod Methods
mod Connection
mod Table
mod Handshake
mod Generated
mod Waiting
mod Properties
