-- ===== src/Tests.antt =====
-- Runs of the definitions at concrete inputs, and the theorems applied there.
mod RingBuffer
mod Views
mod IntParse
mod Epoller
mod Subst
mod Inp
mod Io
mod LogRing
mod LogBase
mod DimensionalSeq
mod RobinMap
mod ArgParse
mod FixedVector
mod Byteconv
