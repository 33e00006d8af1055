-- ===== src/Containment/Cluster.antt =====
-- pkg/containment/executor.go, `NewInClusterExecutor`: where the configuration of the Kubernetes client comes
-- from. What client-go and the environment answer is a parameter.
use ztre.Base.{GoString, lit, is_empty, Bool, not, ◌&&◌, Option, none, some, if◌then◌else◌}
use ztre.Base.FilePath.{join}
use ztre.Containment.{Executor, new_executor}

pub record Cluster : Type 0 where
  -- rest.InClusterConfig works
  pub in_cluster : Bool
  -- os.Getenv("KUBECONFIG") and os.UserHomeDir, whose error is ignored
  pub kubeconfig : GoString
  pub home : GoString
  -- clientcmd.BuildConfigFromFlags works on the path
  pub builds : GoString → Bool
  -- kubernetes.NewForConfig works
  pub connects : Bool

abbrev pub kubeconfig_path : Cluster → GoString
kubeconfig_path k =
    if is_empty k.kubeconfig then join (join k.home (lit ".kube")) (lit "config") else k.kubeconfig

-- A failure of the local configuration gives up; none is an error.
unfoldable pub new_in_cluster_executor : Cluster → Option Executor
new_in_cluster_executor k =
    if not k.in_cluster && not (k.builds (kubeconfig_path k))
    then none
    else if k.connects
    then some new_executor
    else none
