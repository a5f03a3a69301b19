-- ===== src/Handlers/Release.antt =====
-- A file that is opened again and released.
use cycology.Nand.{Nand}
