-- ===== src/Dashboard.antt =====
-- dashboard/dashboardexecute: the runs of a dashboard.
pub mod Build
pub mod Execution
