-- ===== src/Tests.antt =====
-- A machine, a calendar and a schedule to run the program on, and the theorems applied there.
mod Machine
mod Sample
mod ScheduleTests
mod CommandTests
mod HistoryTests
mod HolderTests
mod KernelTests
mod SiteTests
mod SamplePackets
mod PacketTests
mod HostsTests
mod ListTests
mod ServerTests
