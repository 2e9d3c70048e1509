-- ===== src/Subnets/Errors.antt =====
-- network/subnets/errors.go, and the two errors that StaticSubnetSelector formats.
use garden_linux.Subnets.Address.{IpNet}

pub data SubnetError : Type 0 where
  overlaps_dynamic overlaps_existing : IpNet → IpNet → SubnetError
  insufficient_subnets insufficient_ips : SubnetError
  released_unallocated_subnet overlaps_existing_subnet : SubnetError
  invalid_ip ip_already_acquired ip_cannot_be_nil : SubnetError
  ip_equals_gateway ip_equals_broadcast : SubnetError
