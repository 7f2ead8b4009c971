-- ===== src/Tests.antt =====
-- Concrete runs of the model, and its theorems at concrete inputs.
mod Hex
mod Fixtures
mod CodecRuns
mod StoreRuns
mod WordRuns
mod WireRuns
mod ServerRuns
mod BlobRuns
mod RangeRuns
mod GraphRuns
mod KvsRuns
mod PutRuns
mod TrunkRuns
