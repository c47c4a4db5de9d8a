-- ===== src/Stratum/Mode.antt =====
-- EthStratumClient.h: `enum StratumProtocol`, as the numbers that a connection holds.
use fpga_ethash.Base.{ℕ}

abbrev pub stratum : ℕ
stratum = 0

abbrev pub ethproxy : ℕ
ethproxy = 1

abbrev pub ethereumstratum : ℕ
ethereumstratum = 2

abbrev pub ethereumstratum2 : ℕ
ethereumstratum2 = 3
