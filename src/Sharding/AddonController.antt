-- ===== src/Sharding/AddonController.antt =====
-- pkg/sharding/addon-controller.go: the manifest template, as generated.
use shard_controller.Prelude.{String}

abbrev pub addon_controller_template : String
addon_controller_template =
    "apiVersion: apps/v1\nkind: Deployment\nmetadata:\n  labels:\n    control-plane: addon-controller\n  name: addon-controller-{{.SHARD}}\n  namespace: projectsveltos\nspec:\n  replicas: 1\n  selector:\n    matchLabels:\n      control-plane: addon-controller\n  strategy:\n    type: Recreate\n  template:\n    metadata:\n      annotations:\n        kubectl.kubernetes.io/default-container: controller\n      labels:\n        control-plane: addon-controller\n    spec:\n      containers:\n      - args:\n        - --diagnostics-address=:8443\n        - --report-mode=0\n        - --shard-key={{.SHARD}}\n        - --capi-onboard-annotation=\n        - --v=5\n        - --version=v1.17.0\n        - --agent-in-mgmt-cluster=false\n        command:\n        - /manager\n        env:\n        - name: GOMEMLIMIT\n          valueFrom:\n            resourceFieldRef:\n              resource: limits.memory\n        - name: GOMAXPROCS\n          valueFrom:\n            resourceFieldRef:\n              resource: limits.cpu\n        - name: NAMESPACE\n          valueFrom:\n            fieldRef:\n              fieldPath: metadata.namespace\n        image: docker.io/projectsveltos/addon-controller@sha256:95f36a53eab7d7284aec941d6c651b83051c52b004f5c2b6d156c81eceea47b5\n        imagePullPolicy: IfNotPresent\n        livenessProbe:\n          failureThreshold: 3\n          httpGet:\n            path: /healthz\n            port: healthz\n            scheme: HTTP\n          initialDelaySeconds: 15\n          periodSeconds: 20\n        name: controller\n        ports:\n        - containerPort: 8443\n          name: metrics\n          protocol: TCP\n        - containerPort: 9440\n          name: healthz\n          protocol: TCP\n        readinessProbe:\n          failureThreshold: 3\n          httpGet:\n            path: /readyz\n            port: healthz\n            scheme: HTTP\n          initialDelaySeconds: 5\n          periodSeconds: 10\n        resources:\n          requests:\n            memory: 256Mi\n        securityContext:\n          allowPrivilegeEscalation: false\n          capabilities:\n            drop:\n            - ALL\n          seccompProfile:\n            type: RuntimeDefault\n        volumeMounts:\n        - mountPath: /tmp\n          name: tmp\n      initContainers:\n      - args:\n        - --report-mode=0\n        - --shard-key={{.SHARD}}\n        - --agent-in-mgmt-cluster=false\n        env:\n        - name: GOMEMLIMIT\n          valueFrom:\n            resourceFieldRef:\n              resource: limits.memory\n        - name: GOMAXPROCS\n          valueFrom:\n            resourceFieldRef:\n              resource: limits.cpu\n        - name: NAMESPACE\n          valueFrom:\n            fieldRef:\n              fieldPath: metadata.namespace\n        - name: IS_INITIALIZATION\n          value: \"true\"\n        image: docker.io/projectsveltos/addon-controller@sha256:95f36a53eab7d7284aec941d6c651b83051c52b004f5c2b6d156c81eceea47b5\n        imagePullPolicy: IfNotPresent\n        name: initialization\n        securityContext:\n          allowPrivilegeEscalation: false\n          capabilities:\n            drop:\n            - ALL\n          seccompProfile:\n            type: RuntimeDefault\n      securityContext:\n        runAsNonRoot: true\n        seccompProfile:\n          type: RuntimeDefault\n      serviceAccountName: addon-controller\n      terminationGracePeriodSeconds: 10\n      volumes:\n      - emptyDir: {}\n        name: tmp\n"
