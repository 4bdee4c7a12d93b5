-- ===== src/Simulator.antt =====
-- simdistserve: the discrete-event simulator. Requests move through queues of workers, which the
-- schedulers fill and the workers' processes empty, one pass at a time.
pub mod Requests
pub mod Estimates
pub mod Workers
pub mod Systems
pub mod Clusters
pub mod Bisection
pub mod Configs
